-- ===== src/Escalation.antt =====
-- server/internal/api/escalation.go: the ladder that gets louder while devices stay silent. A time
-- of the ladder is in nanoseconds since the epoch, `issued_at`, `ttl` and `started_at` in seconds.
pub mod Climb
pub mod Voices
pub mod Tests
use aleart_hub.Base.{
  ℕ, zero, suc, ◌+◌, ◌-◌, ◌*◌, ◌/◌, Bool, true, false, not, ◌&&◌, ◌||◌, Option, none, some, List,
  [], ◌∷◌, if◌then◌else◌, ◌==◌, nat_eq, text_eq, ltb, leb, Text, text, Map, put,
}
use aleart_hub.Alert.{Alert, critical, emergency}

abbrev pub second : ℕ
second = 1_000_000_000

-- The values of escalationSchedule, its three thresholds.
pub record Schedule : Type 0 where
  pub first : ℕ
  pub second : ℕ
  pub third : ℕ

unfoldable pub escalation_schedule : Text → Option Schedule
escalation_schedule s =
    if s == emergency
    then some (record { first = 15 * second; second = 45 * second; third = 120 * second })
    else if s == critical
    then some (record { first = 30 * second; second = 90 * second; third = 180 * second })
    else none

-- `sched[i]` of a severity; a missing one reads as zero thresholds.
unfoldable pub threshold : Text → ℕ → ℕ
threshold s i = elim (escalation_schedule s) [
  | none ↦ 0
  | some t ↦ if i == 0 then t.first else if i == 1 then t.second else t.third
]

pub record EscalationState : Type 0 where
  pub alert_id : Text
  pub severity : Text
  pub phase : ℕ
  pub started_at : ℕ
  pub pending : List Text
  pub unreached : List Text
  pub done : Bool
  pub alert : Alert
  pub last_phase : ℕ

abbrev pub Ladder : Type 0
Ladder = Map EscalationState

-- The entry that TrackForAck stores.
unfoldable pub fresh : Alert → ℕ → EscalationState
fresh a now = record {
  alert_id = a.id;
  severity = a.severity;
  phase = 0;
  started_at = now / second;
  pending = [];
  unreached = [];
  done = false;
  alert = a;
  last_phase = now;
}

-- TrackForAck
unfoldable pub track_for_ack : Alert → ℕ → Ladder → Ladder
track_for_ack a now l =
    if a.type == text "alert"
    then elim (escalation_schedule a.severity) [ none ↦ l | some t ↦ put l a.id (fresh a now) ]
    else l

-- StopEscalation
unfoldable pub stop_escalation : Text → Ladder → Ladder
stop_escalation i l = elim (l i) [ none ↦ l | some st ↦ put l i (record st { done = true }) ]

-- `now.Sub(time.Unix(st.StartedAt, 0)) >= sched[i]`
unfoldable pub is_reached : ℕ → EscalationState → ℕ → Bool
is_reached now st i = leb (st.started_at * second + threshold st.severity i) now

-- The loop `for i := st.Phase; i < 3; i++`, with the rounds left.
unfoldable pub advance_from : ℕ → ℕ → EscalationState → ℕ → ℕ → ℕ
advance_from zero now st i next = next
advance_from (suc n) now st i next =
    advance_from n now st (i + 1) (if is_reached now st i then i + 1 else next)

unfoldable pub next_phase : ℕ → EscalationState → ℕ
next_phase now st = advance_from (3 - st.phase) now st st.phase st.phase

-- What a tick sends over the backup channel: the phase and the silent devices.
pub record Voice : Type 0 where
  pub phase : ℕ
  pub silent : List Text

-- The part of the loop body that sets the phase.
unfoldable pub climb : ℕ → List Text → EscalationState → EscalationState
climb now silent st =
    let next = next_phase now st in
    if ltb st.phase next
    then record st {
      pending = silent;
      phase = next;
      last_phase = now;
      unreached = if leb 3 next then silent else st.unreached;
    }
    else record st { pending = silent }

-- The body of the loop of evalEscalations for an entry that is not done: `silent` is what
-- pendingDevices returns.
unfoldable pub eval_state : ℕ → List Text → EscalationState → EscalationState × Option Voice
eval_state now [] st =
    if ltb (st.alert.issued_at + st.alert.ttl) (now / second)
    then (record st { done = true }, none)
    else (record st { done = true; pending = [] }, none)
eval_state now (d ∷ ds) st =
    if ltb (st.alert.issued_at + st.alert.ttl) (now / second)
    then (record st { done = true }, none)
    else let next = next_phase now st in
      let climbed = climb now (d ∷ ds) st in
      (
        climbed,
        if ltb 0 next && now == climbed.last_phase
            then some (record { phase = climbed.phase; silent = d ∷ ds })
            else none,
      )

unfoldable pub eval_entry : ℕ → List Text → EscalationState → EscalationState × Option Voice
eval_entry now silent st = if st.done then (st, none) else eval_state now silent st

-- evalEscalations: each entry on its own, since the loop's bodies share nothing.
unfoldable pub eval_escalations : ℕ → (Text → List Text) → Ladder → Ladder
eval_escalations now silent l i = elim (l i) [
  | none ↦ none
  | some st ↦ some (eval_entry now (silent st.alert_id) st).0
]
