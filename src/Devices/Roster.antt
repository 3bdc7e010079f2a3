-- ===== src/Devices/Roster.antt =====
-- What one message does to the roster and to the acks (presence.go, acks.go, store/acks.go), and what
-- pendingDevices then lists.
use aleart_hub.Base.{
  ℕ, ◌≡◌, refl, ap, subst, ◌∙◌, Bool, true, false, not, ◌&&◌, List, [], ◌∷◌, map, any, any-append,
  select, inl, inr, Bool-cases, arith, if◌then◌else◌, ◌==◌, nat_eq, text_eq, text_eqb_iff, Text,
  All,
}
use aleart_hub.Devices.{
  Presence, Ack, AckRow, is_device, set_presence, is_online, is_for, insert_by_ack, sort_by_ack,
  has_acked, silent_devices, online_devices,
}

-- Whether the roster has the device as online.
abbrev pub is_up : Text → List Presence → Bool
is_up d roster = any (λ p. is_device d p && is_online p) roster

-- Whether there is an ack of the alert by the device.
abbrev pub has_ack : ℕ → Text → Text → List AckRow → Bool
has_ack org alert_id d rows = any (λ r. is_for org alert_id r && r.ack.device_id == d) rows

abbrev pub IsOf : ℕ → List AckRow → Type 0
IsOf org = All (λ r. r.org_id ≡ org)

replaced :
    (p : Presence) (d : Text) (roster : List Presence)
    → is_up d (map (λ q. if is_device p.device_id q then p else q) roster)
      ≡ (if p.device_id == d then any (is_device d) roster && is_online p else is_up d roster)
replaced p d [] = ground arith
replaced p d (q ∷ roster) = ground (
  arith,
  replaced p d roster,
  text_eqb_iff p.device_id d,
  text_eqb_iff q.device_id d,
  text_eqb_iff q.device_id p.device_id,
)

absent_down :
    (d : Text) (roster : List Presence) → any (is_device d) roster ≡ false → is_up d roster ≡ false
absent_down d [] h = refl
absent_down d (p ∷ roster) h = ground (arith, absent_down d roster)

pub set_presence_lem :
    (p : Presence) (d : Text) (roster : List Presence)
    → is_up d (set_presence p roster) ≡ (if p.device_id == d then is_online p else is_up d roster)
unfolding set_presence
set_presence_lem p d roster = elim (Bool-cases (any (is_device p.device_id) roster)) [
  | inl known ↦ rw (known, set_presence) (replaced p d roster ∙ own d known)
  | inr new ↦
      rw (new, set_presence)
        (any-append (λ q. is_device d q && is_online q) roster (p ∷ []) ∙ added new)
]
  where
    own :
        (e : Text)
        → any (is_device p.device_id) roster ≡ true
        → (if p.device_id == e then any (is_device e) roster && is_online p else is_up e roster)
          ≡ (if p.device_id == e then is_online p else is_up e roster)
    own e known = elim (Bool-cases (p.device_id == e)) [
      | inl same ↦
          let eq : p.device_id ≡ e = ground (arith, text_eqb_iff p.device_id e) in
          let known' = subst (λ (x : Text). any (is_device x) roster ≡ true) eq known in
          rw (same, known') refl
      | inr other ↦ rw other refl
    ]

    added :
        any (is_device p.device_id) roster ≡ false
        → (if is_up d roster then true else is_up d (p ∷ []))
          ≡ (if p.device_id == d then is_online p else is_up d roster)
    added new = elim (Bool-cases (p.device_id == d)) [
      | inl same ↦
          let eq : p.device_id ≡ d = ground (arith, text_eqb_iff p.device_id d) in
          let new' = subst (λ (x : Text). any (is_device x) roster ≡ false) eq new in
          let down = absent_down d roster new' in ground arith
      | inr other ↦ ground arith
    ]

any_insert :
    (f : Ack → Bool) (a : Ack) (bs : List Ack)
    → any f (insert_by_ack a bs) ≡ (if f a then true else any f bs)
unfolding insert_by_ack
any_insert f a [] = refl
any_insert f a (b ∷ bs) = ground (arith, any_insert f a bs)

pub any_sort : (f : Ack → Bool) (bs : List Ack) → any f (sort_by_ack bs) ≡ any f bs
unfolding sort_by_ack
any_sort f [] = refl
any_sort f (b ∷ bs) =
    any_insert f b (sort_by_ack bs) ∙ ap (λ (x : Bool). if f b then true else x) (any_sort f bs)

pub any_for :
    (org : ℕ) (alert_id d : Text) (rows : List AckRow)
    → has_acked d (map (λ r. r.ack) (select (is_for org alert_id) rows))
      ≡ has_ack org alert_id d rows
any_for org alert_id d [] = refl
any_for org alert_id d (r ∷ rows) = ground (arith, any_for org alert_id d rows)

pub listed :
    (acked : List Ack) (d : Text) (roster : List Presence)
    → any (λ x. x == d) (silent_devices acked roster) ≡ (is_up d roster && not (has_acked d acked))
unfolding silent_devices
listed acked d [] = refl
listed acked d (p ∷ roster) = elim (Bool-cases (p.device_id == d)) [
  | inl same ↦
      let e : p.device_id ≡ d = ground (arith, text_eqb_iff p.device_id d) in
      let acks = ap (λ (x : Text). has_acked x acked) e in
      let rest = listed acked d roster in ground arith
  | inr other ↦ let rest = listed acked d roster in ground arith
]

pub up_listed :
    (d : Text) (roster : List Presence) → any (λ x. x == d) (online_devices roster) ≡ is_up d roster
unfolding online_devices
up_listed d [] = refl
up_listed d (p ∷ roster) = ground (arith, up_listed d roster)
