-- ===== src/Escalation/Climb.antt =====
-- The phase that a tick reaches (api/escalation.go, the loop over the thresholds).
use Prim.Native.Nat.{max}
use aleart_hub.Base.{
  ℕ, zero, suc, ◌+◌, ◌-◌, ◌/◌, ◌≤◌, ◌<◌, ◌≡◌, ◌∙◌, false, ◌&&◌, Option, none, some, List, ◌∷◌,
  arith, if◌then◌else◌, ◌==◌, nat_eq, nat_eqb_iff, ltb, Text,
}
use aleart_hub.Escalation.{
  EscalationState, Voice, is_reached, advance_from, next_phase, climb, eval_state, eval_entry,
  second,
}

-- The number of the last threshold that the time has reached, 0 before the first.
abbrev pub reached : ℕ → EscalationState → ℕ
reached now st =
    if is_reached now st 2
    then 3
    else if is_reached now st 1
    then 2
    else if is_reached now st 0
    then 1
    else 0

from_phase :
    (p now : ℕ) (st : EscalationState)
    → p ≤ 3
    → advance_from (3 - p) now st p p ≡ max p (reached now st)
unfolding advance_from
from_phase zero now st h = ground arith
from_phase (suc zero) now st h = ground arith
from_phase (suc (suc zero)) now st h = ground arith
from_phase (suc (suc (suc zero))) now st h = ground arith
from_phase (suc (suc (suc (suc p)))) now st h = absurd (omega arith)

pub next_phase_lem :
    (now : ℕ) (st : EscalationState)
    → st.phase ≤ 3
    → next_phase now st ≡ max st.phase (reached now st)
unfolding next_phase
next_phase_lem now st h = from_phase st.phase now st h

climb_to :
    (now next : ℕ) (d : Text) (ds : List Text) (st : EscalationState)
    → next_phase now st ≡ max st.phase next
    → next ≤ 3
    → st.last_phase < now
    → let k = climb now (d ∷ ds) st in
      (k.phase ≡ max st.phase next)
      × (k.last_phase ≡ (if ltb st.phase next then now else st.last_phase))
      × (k.unreached ≡ (if ltb st.phase next && next == 3 then d ∷ ds else st.unreached))
      × (k.done ≡ st.done)
unfolding climb
climb_to now next d ds st e n h = rw e (ground arith, ground arith, ground arith, ground arith)

pub reached_le : (now : ℕ) (st : EscalationState) → reached now st ≤ 3
reached_le now st = ground arith

opened :
    (now : ℕ) (d : Text) (ds : List Text) (st : EscalationState)
    → st.done ≡ false
    → now / second ≤ st.alert.issued_at + st.alert.ttl
    → eval_entry now (d ∷ ds) st ≡ (
      climb now (d ∷ ds) st,
      if ltb 0 (next_phase now st) && now == (climb now (d ∷ ds) st).last_phase
          then some (record { phase = (climb now (d ∷ ds) st).phase; silent = d ∷ ds })
          else none,
    )
unfolding eval_entry eval_state
opened now d ds st o x = ground arith

abbrev pub said : ℕ → List Text → Option Voice
said p silent = some (record { phase = p; silent = silent })

voice_of :
    (p next now last a b c : ℕ) (silent : List Text)
    → a ≡ max p next
    → b ≡ (if ltb p next then now else last)
    → c ≡ max p next
    → last < now
    → (if ltb 0 a && now == b then said c silent else none)
      ≡ (if ltb p next then said next silent else none)
voice_of p next now last a b c silent e f g h =
    rw (e, f, g) (ground (arith, nat_eqb_iff now now, nat_eqb_iff now last))

pub eval_last :
    (now : ℕ) (d : Text) (ds : List Text) (st : EscalationState)
    → st.done ≡ false
    → now / second ≤ st.alert.issued_at + st.alert.ttl
    → st.phase ≤ 3
    → st.last_phase < now
    → (eval_entry now (d ∷ ds) st).0.last_phase ≤ now
eval_last now d ds st o x p h =
    let (_, la, _, _) =
      climb_to now (reached now st) d ds st (next_phase_lem now st p) (reached_le now st) h in
    rw (opened now d ds st o x, la) (ground arith)

-- A tick after the last phase change, at which an entry that is not done and not expired has silent
-- devices, raises the phase to the last threshold reached and never lowers it, calls out with the
-- new phase exactly when it rose, names the silent devices unreachable when it rose to 3, and keeps
-- the entry open.
pub eval_entry_lem :
    (now : ℕ) (d : Text) (ds : List Text) (st : EscalationState)
    → st.done ≡ false
    → now / second ≤ st.alert.issued_at + st.alert.ttl
    → st.phase ≤ 3
    → st.last_phase < now
    → let (k, voice) = eval_entry now (d ∷ ds) st in
      (k.phase ≡ max st.phase (reached now st))
      × (voice ≡ (if ltb st.phase (reached now st) then said (reached now st) (d ∷ ds) else none))
      × (k.unreached
          ≡ (if ltb st.phase (reached now st) && reached now st == 3 then d ∷ ds else st.unreached))
      × (k.done ≡ false)
eval_entry_lem now d ds st o x p h =
    let e = next_phase_lem now st p in
    let (ph, la, un, dn) = climb_to now (reached now st) d ds st e (reached_le now st) h in
    rw (opened now d ds st o x) (
      ph,
      voice_of st.phase (reached now st) now st.last_phase _ _ _ (d ∷ ds) e la ph h,
      un,
      dn ∙ o,
    )
