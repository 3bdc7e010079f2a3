-- ===== src/Drill.antt =====
-- server/internal/api/drill.go and store/drills.go: the drill, a real alert that the devices online are
-- to confirm within a window. Window and times of results are in seconds. While the window is open
-- messages of devices arrive; what else the server does then is left out.
pub mod Verdict
mod Tests
use aleart_hub.Base.{
  ℕ, ◌+◌, ◌-◌, ◌*◌, ◌/◌, Bool, true, false, not, ◌&&◌, ◌||◌, Option, none, some, List, [], ◌∷◌,
  ◌++◌, select, take, if◌then◌else◌, ◌==◌, nat_eq, text_eq, ltb, length, Text, text, join,
}
use aleart_hub.Alert.{Alert, Signer, schema_version, warning}
use aleart_hub.Escalation.{second}
use aleart_hub.Server.{Server, Outside, Setup, publish_alert, signed, post}
use aleart_hub.Devices.{Hub, Json, Message, Ack, online_devices, has_acked, list_acks}
use aleart_hub.Devices.History.{run}

pub record DrillConfig : Type 0 where
  pub weekday : ℕ
  pub hour : ℕ
  pub minute : ℕ
  pub window : ℕ
  pub severity : Text

-- The defaults that RunDrills puts in.
unfoldable pub with_defaults : DrillConfig → DrillConfig
with_defaults c = record c {
  window = if c.window == 0 then 600 else c.window;
  severity = if c.severity == [] then warning else c.severity;
}

-- The wall clock at a tick; the stamp is its date and minute.
pub record Clock : Type 0 where
  pub weekday : ℕ
  pub hour : ℕ
  pub minute : ℕ
  pub stamp : Text

-- One tick of RunDrills: the stamp of the last run, and whether a drill starts.
unfoldable pub drill_tick : DrillConfig → Clock → Text → Text × Bool
drill_tick c now last =
    if not (now.weekday == c.weekday && now.hour == c.hour && now.minute == c.minute)
    then (last, false)
    else if now.stamp == last
    then (last, false)
    else (now.stamp, true)

pub record DrillResult : Type 0 where
  pub id : ℕ
  pub org_id : ℕ
  pub at : ℕ
  pub alert_id : Text
  pub severity : Text
  pub expected : ℕ
  pub acked : ℕ
  pub missed : Text
  pub passed : Bool

-- The table `drills`, by the next id.
pub record DrillTable : Type 0 where
  pub next_id : ℕ
  pub rows : List DrillResult

-- RecordDrill; the caller only logs its error.
unfoldable pub record_drill : Bool → DrillResult → DrillTable → DrillTable
record_drill written d t =
    if written
    then record { next_id = t.next_id + 1; rows = t.rows ++ record d { id = t.next_id } ∷ [] }
    else t

-- `ORDER BY id DESC` of rows that stand in the order of their ids.
unfoldable pub newest_first : List DrillResult → List DrillResult
newest_first [] = []
newest_first (d ∷ ds) = newest_first ds ++ d ∷ []

-- ListDrills
unfoldable pub list_drills : ℕ → ℕ → DrillTable → List DrillResult
list_drills org limit t =
    take (if limit == 0 || ltb 200 limit then 50 else limit)
      (select (λ d. d.org_id == org) (newest_first t.rows))

pub record Site : Type 0 where
  pub server : Server
  pub hub : Hub
  pub drills : DrillTable
  pub trail : List (Text × Text)

unfoldable pub drill_alert : Outside → DrillConfig → Alert
drill_alert io c = record {
  schema_version = schema_version;
  id = io.new_id;
  type = text "alert";
  category = text "system";
  severity = c.severity;
  title = text "🧪 演练 · 这是一次测试";
  body = text "这是例行演练，不是真实警报。请点击确认，以证明这台设备在真警报时会响。";
  action = text "点击确认";
  source = text "drill";
  issued_at = io.now / second;
  ttl = c.window + 60;
  nonce = io.new_nonce;
  cancels = [];
  sig = [];
}

-- The end of the window: whether the context was cancelled before it, the clock, the nonce of a
-- failure message, and whether the acks are read and the result written.
pub record Closing : Type 0 where
  pub cancelled : Bool
  pub now : ℕ
  pub new_nonce : Text
  pub readable : Bool
  pub written : Bool

-- strings.Join(missed, ", ")
unfoldable pub join_missed : List Text → Text
join_missed [] = []
join_missed (d ∷ []) = d
join_missed (d ∷ e ∷ ds) = d ++ text ", " ++ join_missed (e ∷ ds)

unfoldable pub failure_alert : Closing → Text → List Text → Alert
failure_alert c alert_id missed = record {
  schema_version = schema_version;
  id = text "drill-fail-" ++ alert_id;
  type = text "alert";
  category = text "system";
  severity = warning;
  title = text "演练未通过：有设备未确认";
  body = text "未确认设备: " ++ join_missed missed ++ text " —— 它们在真实警报时可能不会响，请检查。";
  action = text "检查这些设备";
  source = text "drill";
  issued_at = c.now / second;
  ttl = 3600;
  nonce = c.new_nonce;
  cancels = [];
  sig = [];
}

-- The devices expected that are not in the list.
unfoldable pub missed_of : List Ack → List Text → List Text
missed_of acked expected = select (λ d. not (has_acked d acked)) expected

unfoldable pub verdict : Closing → ℕ → Text → Text → List Text → List Text → DrillResult
verdict c org alert_id severity expected missed = record {
  id = 0;
  org_id = org;
  at = c.now / second;
  alert_id = alert_id;
  severity = severity;
  expected = length expected;
  acked = length expected - length missed;
  missed = join b',' missed;
  passed = length missed == 0;
}

module _ (signer : Signer) (setup : Setup signer) where
  -- notifyDrillFailure
  unfoldable pub notify_drill_failure : Closing → Text → List Text → Server → Server
  notify_drill_failure c alert_id missed s =
      post signer setup (signed signer setup (failure_alert c alert_id missed)) s

  -- RunDrillOnce after the window.
  unfoldable pub close_drill :
      Closing → ℕ → Text → Text → List Text → Site → Site × Option DrillResult
  close_drill c org alert_id severity expected s =
      let acked = elim (list_acks c.readable org alert_id s.hub.acks) as (λ o. List Ack) [
        | none ↦ []
        | some l ↦ l
      ] in
      let missed = missed_of acked expected in
      let res = verdict c org alert_id severity expected missed in
      (
        record s {
          server = if res.passed then s.server else notify_drill_failure c alert_id missed s.server;
          drills = record_drill c.written res s.drills;
          trail =
              s.trail
              ++ (text "drill.run", if res.passed then text "drill PASS" else text "drill FAIL")
                ∷ [];
        },
        some res,
      )

  -- RunDrillOnce, with the messages of the window; no value is the empty result.
  unfoldable pub run_drill_once :
      Json → DrillConfig → ℕ → Outside → List Message → Closing → Site → Site × Option DrillResult
  run_drill_once json c org io window closing s =
      let expected = online_devices s.hub.roster in
      let a = drill_alert io c in
      let (server, sent) = publish_alert signer setup io a org s.server in
      let after = record s { server = server; hub = run json org window s.hub } in
      if not sent
      then (s, none)
      else if closing.cancelled
      then (after, none)
      else close_drill closing org a.id c.severity expected after
