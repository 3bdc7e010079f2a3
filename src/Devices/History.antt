-- ===== src/Devices/History.antt =====
-- The roster and the acks against the messages that came (presence.go, acks.go): what is kept is what
-- each device said last, and which alerts it confirmed.
use aleart_hub.Base.{
  ℕ, ◌≡◌, refl, ap, ◌∙◌, Bool, true, false, not, ◌&&◌, ◌||◌, Option, none, some, List, [], ◌∷◌, map,
  any, any-append, select, inl, inr, Bool-cases, Option-cases, arith, if◌then◌else◌, ◌==◌, nat_eq,
  text_eq, text_eqb_iff, Text, All-append, split_all,
}
use aleart_hub.Devices.{
  Ack, AckRow, Hub, Json, Message, status_message, ack_message, presence_device, stated,
  on_presence, is_online, same_ack, record_ack, on_ack, is_for, four_parts, ack_topic, list_acks,
  sort_by_ack, pending_devices, receive,
}
use aleart_hub.Devices.Roster.{is_up, has_ack, IsOf, set_presence_lem, any_sort, any_for, listed}

abbrev pub run : Json → ℕ → List Message → Hub → Hub
run json org [] h = h
run json org (m ∷ ms) h = run json org ms (receive json org m h)

-- What the message says of whether `d` is online, if it is a message of `d` that says it.
abbrev pub word_of : Json → Text → Message → Option Bool
word_of json d (ack_message written now topic payload) = none
word_of json d (status_message now topic payload) = elim (presence_device topic) [
  | none ↦ none
  | some e ↦ elim (stated json payload) [
    | none ↦ none
    | some p ↦ if e == d then some (is_online p) else none
  ]
]

-- Whether the last word of `d` is that it is online, by what held before.
abbrev pub last_word : Json → Text → Bool → List Message → Bool
last_word json d before [] = before
last_word json d before (m ∷ ms) =
    last_word json d (elim (word_of json d m) [ none ↦ before | some b ↦ b ]) ms

-- Whether the message is an ack of the alert by `d` that was stored.
abbrev pub confirms : Text → Text → Message → Bool
confirms alert_id d (status_message now topic payload) = false
confirms alert_id d (ack_message written now topic []) = false
confirms alert_id d (ack_message written now topic (c ∷ payload)) = elim (ack_topic topic) [
  | none ↦ false
  | some (a, e) ↦ written && (a == alert_id && e == d)
]

presence_word :
    (json : Json) (org : ℕ) (d : Text) (m : Message) (h : Hub)
    → is_up d (receive json org m h).roster
      ≡ elim (word_of json d m) as (λ o. Bool) [ none ↦ is_up d h.roster | some b ↦ b ]
unfolding receive on_presence
presence_word json org d (ack_message written now topic payload) h = refl
presence_word json org d (status_message now topic payload) h =
    elim (Option-cases (presence_device topic)) [
      | inl e ↦ rw (e, on_presence) refl
      | inr (dev, e) ↦ elim (Option-cases (stated json payload)) [
        | inl e' ↦ rw (e, e', on_presence) refl
        | inr (p, e') ↦
            rw (e, e', on_presence)
              (set_presence_lem (record p { device_id = dev; last_seen = now }) d h.roster
                ∙ ground arith)
      ]
    ]

pub run_up :
    (json : Json) (org : ℕ) (d : Text) (ms : List Message) (h : Hub)
    → is_up d (run json org ms h).roster ≡ last_word json d (is_up d h.roster) ms
run_up json org d [] h = refl
run_up json org d (m ∷ ms) h =
    run_up json org d ms (receive json org m h)
    ∙ ap (λ (b : Bool). last_word json d b ms) (presence_word json org d m h)

overwritten :
    (t org : ℕ) (a : Ack) (alert_id d : Text) (rows : List AckRow)
    → has_ack org alert_id d
        (map (λ r. if same_ack a r then record r { ack = record a { ack_at = t } } else r) rows)
      ≡ has_ack org alert_id d rows
overwritten t org a alert_id d [] = refl
overwritten t org a alert_id d (r ∷ rows) = ground (
  arith,
  overwritten t org a alert_id d rows,
  text_eqb_iff r.ack.alert_id a.alert_id,
  text_eqb_iff r.ack.device_id a.device_id,
)

known_acked :
    (org : ℕ) (a : Ack) (alert_id d : Text) (rows : List AckRow)
    → IsOf org rows
    → any (same_ack a) rows ≡ true
    → (a.alert_id == alert_id && a.device_id == d) ≡ true
    → has_ack org alert_id d rows ≡ true
known_acked org a alert_id d [] one known same = absurd (ground arith)
known_acked org a alert_id d (r ∷ rows) one known same =
    let first = one.0 in
    ground (
      arith,
      known_acked org a alert_id d rows one.1,
      text_eqb_iff r.ack.alert_id a.alert_id,
      text_eqb_iff r.ack.device_id a.device_id,
      text_eqb_iff a.alert_id alert_id,
      text_eqb_iff a.device_id d,
    )

-- Storing an ack with both ids, in a table of one organisation.
stored :
    (now org : ℕ) (a : Ack) (alert_id d : Text) (rows : List AckRow)
    → IsOf org rows
    → (a.alert_id == []) ≡ false
    → (a.device_id == []) ≡ false
    → has_ack org alert_id d (record_ack true now org a rows).0
      ≡ (if has_ack org alert_id d rows then true else a.alert_id == alert_id && a.device_id == d)
unfolding record_ack
stored now org a alert_id d rows one x y = elim (Bool-cases (any (same_ack a) rows)) [
  | inl known ↦
      rw (x, y, known, record_ack)
        (overwritten (if a.ack_at == 0 then now else a.ack_at) org a alert_id d rows
          ∙ (let k = known_acked org a alert_id d rows one known in ground (arith, k)))
  | inr new ↦
      rw (x, y, new, record_ack)
        (any-append (λ r. is_for org alert_id r && r.ack.device_id == d) rows _ ∙ ground arith)
]

four_given :
    (ps : List Text) (alert_id d : Text)
    → four_parts ps ≡ some (alert_id, d)
    → ((alert_id == []) ≡ false) × ((d == []) ≡ false)
unfolding four_parts
four_given [] alert_id d h = absurd (ground arith)
four_given (p ∷ []) alert_id d h = absurd (ground arith)
four_given (p ∷ q ∷ []) alert_id d h = absurd (ground arith)
four_given (p ∷ q ∷ r ∷ []) alert_id d h = absurd (ground arith)
four_given (p ∷ q ∷ r ∷ s ∷ []) alert_id d h = (ground arith, ground arith)
four_given (p ∷ q ∷ r ∷ s ∷ t ∷ ps) alert_id d h = absurd (ground arith)

ids_given :
    (topic alert_id d : Text)
    → ack_topic topic ≡ some (alert_id, d)
    → ((alert_id == []) ≡ false) × ((d == []) ≡ false)
unfolding ack_topic
ids_given topic alert_id d h = four_given (split_all b'/' topic) alert_id d h

replaced-IsOf :
    (org : ℕ) (a b : Ack) (rows : List AckRow)
    → IsOf org rows
    → IsOf org (map (λ r. if same_ack a r then record r { ack = b } else r) rows)
replaced-IsOf org a b [] h = tt
replaced-IsOf org a b (r ∷ rows) h =
    let first = h.0 in ((ground arith), replaced-IsOf org a b rows h.1)

record_ack-IsOf :
    (written : Bool) (now org : ℕ) (a : Ack) (rows : List AckRow)
    → IsOf org rows
    → IsOf org (record_ack written now org a rows).0
unfolding record_ack
record_ack-IsOf written now org a rows h =
    elim (Bool-cases (a.alert_id == [] || a.device_id == [])) [
      | inl junk ↦ rw (junk, record_ack) h
      | inr named ↦ elim (Bool-cases written) [
        | inr failed ↦ rw (named, failed, record_ack) h
        | inl done ↦ elim (Bool-cases (any (same_ack a) rows)) [
          | inl known ↦ rw (named, done, known, record_ack) (replaced-IsOf org a _ rows h)
          | inr new ↦
              rw (named, done, new, record_ack)
                (All-append (λ r. r.org_id ≡ org) rows _ h (refl, tt))
        ]
      ]
    ]

receive-IsOf :
    (json : Json) (org : ℕ) (m : Message) (h : Hub)
    → IsOf org h.acks
    → IsOf org (receive json org m h).acks
unfolding receive on_ack
receive-IsOf json org (status_message now topic payload) h one = one
receive-IsOf json org (ack_message written now topic []) h one = one
receive-IsOf json org (ack_message written now topic (c ∷ payload)) h one =
    elim (Option-cases (ack_topic topic)) [
      | inl e ↦ rw (e, on_ack) one
      | inr ((a, d), e) ↦ rw (e, on_ack) (record_ack-IsOf written now org _ h.acks one)
    ]

unwritten :
    (now org : ℕ) (a : Ack) (rows : List AckRow) → (record_ack false now org a rows).0 ≡ rows
unfolding record_ack
unwritten now org a rows = ground arith

ack_kept :
    (json : Json) (org : ℕ) (alert_id d : Text) (m : Message) (h : Hub)
    → IsOf org h.acks
    → has_ack org alert_id d (receive json org m h).acks
      ≡ (if has_ack org alert_id d h.acks then true else confirms alert_id d m)
unfolding receive on_ack
ack_kept json org alert_id d (status_message now topic payload) h one = ground arith
ack_kept json org alert_id d (ack_message written now topic []) h one = ground arith
ack_kept json org alert_id d (ack_message written now topic (c ∷ payload)) h one =
    elim (Option-cases (ack_topic topic)) [
      | inl e ↦ rw (e, on_ack) (ground arith)
      | inr ((a, e), t) ↦
          let (x, y) = ids_given topic a e t in
          elim (Bool-cases written) [
            | inl done ↦
                rw (t, done, on_ack)
                  (stored now org (record (json.ack (c ∷ payload)) { alert_id = a; device_id = e })
                      alert_id d h.acks one x y
                    ∙ ground arith)
            | inr failed ↦
                rw (t, failed, on_ack)
                  (ap (has_ack org alert_id d) (unwritten now org _ h.acks) ∙ ground arith)
          ]
    ]

pub run_acks :
    (json : Json) (org : ℕ) (alert_id d : Text) (ms : List Message) (h : Hub)
    → IsOf org h.acks
    → has_ack org alert_id d (run json org ms h).acks
      ≡ (if has_ack org alert_id d h.acks then true else any (confirms alert_id d) ms)
run_acks json org alert_id d [] h one = ground arith
run_acks json org alert_id d (m ∷ ms) h one =
    run_acks json org alert_id d ms (receive json org m h) (receive-IsOf json org m h one)
    ∙ ap (λ (b : Bool). if b then true else any (confirms alert_id d) ms)
        (ack_kept json org alert_id d m h one)
    ∙ ground arith

-- The messages that a hub with nothing in it was handed.
abbrev pub empty_hub : Hub
empty_hub = record { roster = []; acks = [] }

-- Where the acks can be read, pendingDevices lists a device, for an alert and any history of messages
-- on the two topics, exactly where the last valid message of its presence says that it is online, and
-- no ack of that alert was stored that came on the device's own topic.
pub pending_devices_lem :
    (json : Json) (org : ℕ) (alert_id d : Text) (ms : List Message)
    → any (λ x. x == d) (pending_devices true org alert_id (run json org ms empty_hub))
      ≡ (last_word json d false ms && not (any (confirms alert_id d) ms))
unfolding pending_devices list_acks
pending_devices_lem json org alert_id d ms =
    let h = run json org ms empty_hub in
    let up = run_up json org d ms empty_hub in
    let acks = run_acks json org alert_id d ms empty_hub tt in
    let found =
      any_sort (λ a. a.device_id == d) (map (λ r. r.ack) (select (is_for org alert_id) h.acks))
      ∙ any_for org alert_id d h.acks in
    listed (sort_by_ack (map (λ r. r.ack) (select (is_for org alert_id) h.acks))) d h.roster
    ∙ ap (λ (b : Bool). is_up d h.roster && not b) (found ∙ acks)
    ∙ ap (λ (b : Bool). b && not (any (confirms alert_id d) ms)) up
