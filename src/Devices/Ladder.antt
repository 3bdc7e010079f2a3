-- ===== src/Devices/Ladder.antt =====
-- The escalation ladder over the devices (api/escalation.go, evalEscalations with pendingDevices).
use aleart_hub.Base.{
  ℕ, ◌+◌, ◌/◌, ◌≤◌, ◌≡◌, refl, sym, subst, ◌∙◌, true, false, none, List, [], ◌∷◌, any, arith, ◌==◌,
  text_eq, text_eqb_iff, Text,
}
use aleart_hub.Escalation.{EscalationState, climb, eval_state, eval_entry, second}
use aleart_hub.Devices.{Json, Message, pending_devices}
use aleart_hub.Devices.History.{run, last_word, confirms, empty_hub, pending_devices_lem}

-- A list in which nothing is found is empty.
pub empty_of_any : (xs : List Text) → ((d : Text) → any (λ x. x == d) xs ≡ false) → xs ≡ []
empty_of_any [] h = refl
empty_of_any (x ∷ xs) h = let first = h x in absurd (ground (arith, text_eqb_iff x x))

-- The entry is open and its alert has not expired.
abbrev pub IsLive : ℕ → EscalationState → Type 0
IsLive now st = (st.done ≡ false) × (now / second ≤ st.alert.issued_at + st.alert.ttl)

finished :
    (now : ℕ) (st : EscalationState)
    → IsLive now st
    → let r = eval_entry now [] st in (r.0.done ≡ true) × (r.0.pending ≡ []) × (r.1 ≡ none)
unfolding eval_entry eval_state
finished now st live = let (o, u) = live in (ground arith, ground arith, ground arith)

goes_on :
    (now : ℕ) (d : Text) (xs : List Text) (st : EscalationState)
    → IsLive now st
    → any (λ x. x == d) xs ≡ true
    → (eval_entry now xs st).0.done ≡ false
unfolding eval_entry eval_state climb
goes_on now d [] st live h = absurd (ground arith)
goes_on now d (x ∷ xs) st live h = let (o, u) = live in ground arith

-- A tick of the ladder on an entry that is open and whose alert has not expired, where the acks can
-- be read, after any history of messages. If each device that is online by its last word has
-- confirmed the alert, be it that no device is online, the entry ends with nobody pending and without
-- a call. If one of them has not, the entry stays open.
pub eval_pending_lem :
    (json : Json) (org now : ℕ) (ms : List Message) (st : EscalationState)
    → IsLive now st
    → let r =
        eval_entry now (pending_devices true org st.alert_id (run json org ms empty_hub)) st in
      (((d : Text) → last_word json d false ms ≡ true → any (confirms st.alert_id d) ms ≡ true)
        → (r.0.done ≡ true) × (r.0.pending ≡ []) × (r.1 ≡ none))
      × ((d : Text)
          → last_word json d false ms ≡ true
          → any (confirms st.alert_id d) ms ≡ false
          → r.0.done ≡ false)
eval_pending_lem json org now ms st live =
    let silent = pending_devices true org st.alert_id (run json org ms empty_hub) in
    (
      λ all.
          let none_found : (d : Text) → any (λ x. x == d) silent ≡ false = λ d.
            let e = pending_devices_lem json org st.alert_id d ms in
            let a = all d in ground arith in
          subst
            (λ (l : List Text).
              let r = eval_entry now l st in (r.0.done ≡ true) × (r.0.pending ≡ []) × (r.1 ≡ none))
            (sym (empty_of_any silent none_found)) (finished now st live),
      λ d up quiet.
          goes_on now d silent st live
            (pending_devices_lem json org st.alert_id d ms ∙ rw (up, quiet) refl),
    )
