-- ===== src/Drill/Verdict.antt =====
-- What the verdict of a drill says of the devices (api/drill.go).
use aleart_hub.Base.{
  ℕ, ◌≡◌, ◌↔◌, refl, sym, ap, ◌∙◌, true, false, not, ◌&&◌, some, List, [], ◌∷◌, ◌++◌, map, any,
  select, length, inl, inr, Bool-cases, arith, ◌==◌, nat_eq, text_eq, text_eqb_iff, Text,
}
use aleart_hub.Alert.{Alert, Signer}
use aleart_hub.Server.{Server, Outside, Setup, publish_alert}
use aleart_hub.Devices.{
  Hub, Json, Message, Ack, has_acked, is_for, sort_by_ack, list_acks, online_devices,
}
use aleart_hub.Devices.Roster.{is_up, any_sort, any_for, up_listed}
use aleart_hub.Devices.History.{run, last_word, confirms, empty_hub, run_up, run_acks}
use aleart_hub.Devices.Ladder.{empty_of_any}
use aleart_hub.Drill.{
  DrillConfig, DrillResult, Site, Closing, drill_alert, missed_of, verdict, close_drill,
  run_drill_once,
}

run-append :
    (json : Json) (org : ℕ) (xs ys : List Message) (h : Hub)
    → run json org (xs ++ ys) h ≡ run json org ys (run json org xs h)
run-append json org [] ys h = refl
run-append json org (x ∷ xs) ys h = run-append json org xs ys _

any_missed :
    (acked : List Ack) (d : Text) (expected : List Text)
    → any (λ x. x == d) (missed_of acked expected)
      ≡ (any (λ x. x == d) expected && not (has_acked d acked))
unfolding missed_of
any_missed acked d [] = refl
any_missed acked d (x ∷ expected) = elim (Bool-cases (x == d)) [
  | inl same ↦
      let e : x ≡ d = ground (arith, text_eqb_iff x d) in
      let acks = ap (λ (y : Text). has_acked y acked) e in
      let rest = any_missed acked d expected in ground arith
  | inr other ↦ let rest = any_missed acked d expected in ground arith
]

-- No device expected is missed exactly where each has acked.
none_missed :
    (acked : List Ack) (expected : List Text)
    → ((length (missed_of acked expected) == 0) ≡ true)
      ↔ ((d : Text) → any (λ x. x == d) expected ≡ true → has_acked d acked ≡ true)
none_missed acked expected = (
  λ h d up.
      let e : missed_of acked expected ≡ [] = nothing (missed_of acked expected) (ground arith) in
      let m = any_missed acked d expected in let z = ap (any (λ x. x == d)) e in ground arith,
  λ all.
      let e =
        empty_of_any (missed_of acked expected)
          (λ d. let m = any_missed acked d expected in let a = all d in ground arith) in
      rw e refl,
)
  where
    nothing : (xs : List Text) → length xs ≡ 0 → xs ≡ []
    nothing [] h = refl
    nothing (x ∷ xs) h = absurd (ground arith)

-- The acks that a readable database lists for an alert, after any messages.
listed_acks :
    (json : Json) (org : ℕ) (alert_id d : Text) (ms : List Message)
    → has_acked d (
        sort_by_ack
          (map (λ r. r.ack) (select (is_for org alert_id) (run json org ms empty_hub).acks)))
      ≡ any (confirms alert_id d) ms
listed_acks json org alert_id d ms =
    any_sort (λ a. a.device_id == d) _
    ∙ any_for org alert_id d (run json org ms empty_hub).acks
    ∙ run_acks json org alert_id d ms empty_hub tt

module _ (signer : Signer) (setup : Setup signer) where
  abbrev acks_of : ℕ → Text → Hub → List Ack
  acks_of org alert_id h = sort_by_ack (map (λ r. r.ack) (select (is_for org alert_id) h.acks))

  -- The verdict that a drill comes to.
  abbrev drilled : Json → DrillConfig → ℕ → Outside → List Message → Closing → Site → DrillResult
  drilled json c org io window closing s =
      let expected = online_devices s.hub.roster in
      verdict closing org io.new_id c.severity expected
        (missed_of (acks_of org io.new_id (run json org window s.hub)) expected)

  sends :
      (io : Outside) (a : Alert) (org : ℕ) (s : Server)
      → io.events_ok ≡ true
      → (publish_alert signer setup io a org s).1 ≡ true
  unfolding publish_alert
  sends io a org s up = ground arith

  drill_closes :
      (json : Json) (c : DrillConfig) (org : ℕ) (io : Outside) (window : List Message)
      (closing : Closing) (s : Site)
      → io.events_ok ≡ true
      → closing.cancelled ≡ false
      → closing.readable ≡ true
      → (run_drill_once signer setup json c org io window closing s).1
        ≡ some (drilled json c org io window closing s)
  unfolding run_drill_once close_drill list_acks drill_alert
  drill_closes json c org io window closing s up open' readable =
      let went = sends io (drill_alert io c) org s.server up in ground arith

  -- A drill whose alert is broadcast, whose window ends and whose acks can be read gives a verdict. It
  -- is that the drill passed exactly if each device that was online at the start, by its last word in
  -- the messages before, confirmed the alert in a message before the end of the window. So a drill
  -- with no device online passes.
  pub run_drill_once_lem :
      (json : Json) (c : DrillConfig) (org : ℕ) (io : Outside) (before window : List Message)
      (closing : Closing) (s : Site)
      → s.hub ≡ run json org before empty_hub
      → io.events_ok ≡ true
      → closing.cancelled ≡ false
      → closing.readable ≡ true
      → (res : DrillResult) × ((run_drill_once signer setup json c org io window closing s).1
          ≡ some res)
        × ((res.passed ≡ true) ↔ (
            (d : Text)
            → last_word json d false before ≡ true
            → any (confirms io.new_id d) (before ++ window) ≡ true))
  unfolding verdict
  run_drill_once_lem json c org io before window closing s hub up open' readable =
      let expected = online_devices s.hub.roster in
      let acked = acks_of org io.new_id (run json org window s.hub) in
      let none = none_missed acked expected in
      let was_up : (d : Text) → any (λ x. x == d) expected ≡ last_word json d false before = λ d.
        up_listed d s.hub.roster
        ∙ ap (λ (h : Hub). is_up d h.roster) hub
        ∙ run_up json org d before empty_hub in
      let at_end : (d : Text) → has_acked d acked ≡ any (confirms io.new_id d) (before ++ window) =
        λ d.
          ap (λ (h : Hub). has_acked d (acks_of org io.new_id h))
            (ap (run json org window) hub ∙ sym (run-append json org before window empty_hub))
          ∙ listed_acks json org io.new_id d (before ++ window) in
      (
        drilled json c org io window closing s,
        drill_closes json c org io window closing s up open' readable,
        (
          λ passed d heard. sym (at_end d) ∙ none.0 passed d (was_up d ∙ heard),
          λ all. none.1 (λ d listed. at_end d ∙ all d (sym (was_up d) ∙ listed)),
        ),
      )
