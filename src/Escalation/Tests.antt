-- ===== src/Escalation/Tests.antt =====
-- Runs of the ladder.
use aleart_hub.Base.{
  ℕ, ◌+◌, ◌*◌, ◌≤◌, ◌≡◌, refl, List, [], ◌∷◌, arith, nat_eq, Text, text, length, put, no_keys,
}
use aleart_hub.Alert.Tests.{fire}
use aleart_hub.Escalation.{
  eval_state, climb, next_phase, advance_from, EscalationState, Ladder, fresh, second, eval_entry,
  stop_escalation, escalation_schedule, threshold, is_reached,
}
use aleart_hub.Escalation.Climb.{reached}
use aleart_hub.Escalation.Voices.{Tick, run_ticks, run_ticks_voices}

abbrev pub start : ℕ
start = 1_700_000_000 * second

abbrev deaf : List Text
deaf = text "d1" ∷ text "d2" ∷ []

abbrev pub burning : EscalationState
burning = fresh fire start

-- A tick that comes 100 seconds late jumps from phase 0 to phase 2.
late_tick : reached (start + 100 * second) burning ≡ 2
unfolding fresh is_reached threshold escalation_schedule
late_tick = refl

abbrev ticks : List Tick
ticks =
    (start + 35 * second, deaf) ∷ (start + 40 * second, deaf) ∷ (start + 110 * second, deaf) ∷ []

run_ticks_voices_example :
    (length (run_ticks ticks burning).1 ≤ (run_ticks ticks burning).0.phase)
    × ((run_ticks ticks burning).0.phase ≤ 3)
run_ticks_voices_example =
    run_ticks_voices ticks fire start (omega arith, (omega arith, (omega arith, tt)))

two_voices : length (run_ticks ticks burning).1 ≡ 2
unfolding fresh eval_entry eval_state climb next_phase advance_from is_reached threshold
    escalation_schedule
two_voices = refl

abbrev ladder : Ladder
ladder = stop_escalation fire.id (put no_keys fire.id burning)
