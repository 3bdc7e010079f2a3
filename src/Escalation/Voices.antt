-- ===== src/Escalation/Voices.antt =====
-- How often an alert calls out over all its ticks (api/escalation.go, evalEscalations).
use aleart_hub.Base.{
  ℕ, ◌+◌, ◌/◌, ◌≤◌, ◌<◌, ◌≡◌, refl, Bool-cases, true, false, inl, inr, Option, none, some, List, [],
  ◌∷◌, arith, nat_eq, ltb, Text, text_eq, text_eqb_iff, length,
}
use aleart_hub.Alert.{Alert}
use aleart_hub.Escalation.{
  fresh, EscalationState, Ladder, Voice, eval_state, eval_entry, second, stop_escalation,
}
use aleart_hub.Escalation.Climb.{reached_le, eval_last, eval_entry_lem}

-- A tick: its time and the devices that are silent then.
abbrev pub Tick : Type 0
Tick = ℕ × List Text

abbrev hear : Option Voice → List Voice → List Voice
hear none vs = vs
hear (some v) vs = v ∷ vs

-- The entry after the ticks, and the voices that they sent.
abbrev pub run_ticks : List Tick → EscalationState → EscalationState × List Voice
run_ticks [] st = (st, [])
run_ticks ((now, silent) ∷ ts) st =
    let (k, v) = eval_entry now silent st in let (last, vs) = run_ticks ts k in (last, hear v vs)

-- The ticks come one after the other, all after the time.
abbrev pub IsAfter : ℕ → List Tick → Type 0
IsAfter t [] = Unit
IsAfter t ((now, silent) ∷ ts) = (t < now) × IsAfter now ts

count : Option Voice → ℕ
count none = 0
count (some v) = 1

abbrev IsStep : ℕ → EscalationState → EscalationState × Option Voice → Type 0
IsStep now st r = (r.0.phase ≤ 3) × (r.0.last_phase ≤ now) × (st.phase + count r.1 ≤ r.0.phase)

IsStep-open :
    (now : ℕ) (d : Text) (ds : List Text) (st : EscalationState)
    → st.done ≡ false
    → now / second ≤ st.alert.issued_at + st.alert.ttl
    → st.phase ≤ 3
    → st.last_phase < now
    → IsStep now st (eval_entry now (d ∷ ds) st)
unfolding count
IsStep-open now d ds st o x p h =
    let (ph, v, un, dn) = eval_entry_lem now d ds st o x p h in
    let r = reached_le now st in
    (rw ph (omega arith), eval_last now d ds st o x p h, rw (ph, v) (ground arith))

still-IsStep :
    (now : ℕ) (st : EscalationState) (r : EscalationState × Option Voice)
    → st.phase ≤ 3
    → st.last_phase < now
    → r.0.phase ≡ st.phase
    → r.0.last_phase ≡ st.last_phase
    → r.1 ≡ none
    → IsStep now st r
unfolding count
still-IsStep now st r p h e f g = rw (e, f, g) (p, omega arith, omega arith)

step :
    (now : ℕ) (silent : List Text) (st : EscalationState)
    → st.phase ≤ 3
    → st.last_phase < now
    → IsStep now st (eval_entry now silent st)
step now [] st p h =
    still-IsStep now st (eval_entry now [] st) p h
      (unfold eval_entry in unfold eval_state in ground arith)
      (unfold eval_entry in unfold eval_state in ground arith)
      (unfold eval_entry in unfold eval_state in ground arith)
step now (d ∷ ds) st p h = elim (Bool-cases st.done) [
  | inl shut ↦
      still-IsStep now st (eval_entry now (d ∷ ds) st) p h (unfold eval_entry in ground arith)
        (unfold eval_entry in ground arith) (unfold eval_entry in ground arith)
  | inr open' ↦ elim (Bool-cases (ltb (st.alert.issued_at + st.alert.ttl) (now / second))) [
    | inl over ↦
        still-IsStep now st (eval_entry now (d ∷ ds) st) p h
          (unfold eval_entry in unfold eval_state in ground arith)
          (unfold eval_entry in unfold eval_state in ground arith)
          (unfold eval_entry in unfold eval_state in ground arith)
    | inr live ↦ IsStep-open now d ds st open' (ground arith) p h
  ]
]

length-hear : (v : Option Voice) (vs : List Voice) → length (hear v vs) ≡ count v + length vs
unfolding count
length-hear none vs = omega arith
length-hear (some v) vs = omega arith

heard_le :
    (ts : List Tick) (t : ℕ) (st : EscalationState)
    → st.phase ≤ 3
    → st.last_phase ≤ t
    → IsAfter t ts
    → st.phase + length (run_ticks ts st).1 ≤ (run_ticks ts st).0.phase
      × ((run_ticks ts st).0.phase ≤ 3)
heard_le [] t st p l h = (omega arith, p)
heard_le ((now, silent) ∷ ts) t st p l h =
    let (q, m, c) = step now silent st p (omega arith) in
    let (less, top) = heard_le ts now (eval_entry now silent st).0 q m h.1 in
    (
      omega (
        arith,
        length-hear (eval_entry now silent st).1 (run_ticks ts (eval_entry now silent st).0).1,
      ),
      top,
    )

-- However often the ladder ticks and whoever is silent, an alert calls out at most three times,
-- and never after more than its third phase.
pub run_ticks_voices :
    (ts : List Tick) (a : Alert) (t : ℕ)
    → IsAfter t ts
    → (length (run_ticks ts (fresh a t)).1 ≤ (run_ticks ts (fresh a t)).0.phase)
      × ((run_ticks ts (fresh a t)).0.phase ≤ 3)
unfolding fresh
run_ticks_voices ts a t h =
    let (less, top) = heard_le ts t (fresh a t) (omega arith) (omega arith) h in (omega arith, top)

stopped_done :
    (i : Text) (l : Ladder) (st : EscalationState)
    → stop_escalation i l i ≡ some st
    → st.done ≡ true
unfolding stop_escalation
stopped_done i l st h = ground (arith, text_eqb_iff i i)

shut_quiet :
    (now : ℕ) (silent : List Text) (st : EscalationState)
    → st.done ≡ true
    → eval_entry now silent st ≡ (st, none)
unfolding eval_entry
shut_quiet now silent st h = ground arith

done_quiet : (ts : List Tick) (st : EscalationState) → st.done ≡ true → run_ticks ts st ≡ (st, [])
done_quiet [] st h = refl
done_quiet ((now, silent) ∷ ts) st h = rw (shut_quiet now silent st h, done_quiet ts st h)

-- An alert that was recalled stays done, and no later tick calls out for it.
pub stop_escalation_quiet :
    (i : Text) (l : Ladder) (st : EscalationState) (ts : List Tick)
    → stop_escalation i l i ≡ some st
    → (st.done ≡ true) × (run_ticks ts st ≡ (st, []))
stop_escalation_quiet i l st ts h = let d = stopped_done i l st h in (d, done_quiet ts st d)
