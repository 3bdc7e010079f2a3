-- ===== src/Server.antt =====
-- server/internal/api/api.go with store.Save: publishing, renewing, recalling and expiring alerts,
-- the retained slot alerts/active and the heartbeat. JSON encoding (encoding/json), the broker, the
-- database and the source of randomness are parameters. A time `now` is in nanoseconds.
pub mod Topics
pub mod Active
pub mod Recall
pub mod Wire
pub mod Authentic
pub mod Beats
pub mod Tables
pub mod Panel
pub mod Tests
use aleart_hub.Base.{
  ℕ, zero, suc, ◌+◌, ◌/◌, Bool, true, false, not, ◌&&◌, ◌||◌, Option, none, some, List, [], ◌∷◌,
  ◌++◌, map, any, if◌then◌else◌, ◌==◌, nat_eq, text_eq, ltb, leb, Text, text, length, no_keys,
}
use aleart_hub.Alert.{
  Alert, Heartbeat, Signer, InputError, sign, sign_heartbeat, severity_rank, validate_input,
  default_ttl, default_action, schema_version, notice, health_ok, health_degraded,
}
use aleart_hub.Delivery.{Job, Config, Sender, Outbox, enqueue}
use aleart_hub.Escalation.{Ladder, second, track_for_ack, stop_escalation}

abbrev max_skew : ℕ
max_skew = 120

abbrev heartbeat_interval : ℕ
heartbeat_interval = 10

-- A row of the table `alerts`: the envelope and its organisation.
pub record Row : Type 0 where
  pub org_id : ℕ
  pub alert : Alert

abbrev pub has_alert_id : Text → Row → Bool
has_alert_id i r = r.alert.id == i

-- Store.Save: `ON CONFLICT(id) DO UPDATE`, the organisation included.
unfoldable pub save : Alert → ℕ → List Row → List Row
save a org rows =
    if any (has_alert_id a.id) rows
    then map (λ r. if has_alert_id a.id r then record { org_id = org; alert = a } else r) rows
    else rows ++ record { org_id = org; alert = a } ∷ []

-- The part of Server that changes, and what it has sent: the payloads on alerts/events in order,
-- the one retained on alerts/active (empty is cleared), and the posts to the backup channel.
pub record Server : Type 0 where
  pub active : Option Alert
  pub retained : Text
  pub events : List Text
  pub posts : List Alert
  pub rows : List Row
  pub ladder : Ladder
  pub outbox : Outbox
  pub last_publish_err : Text

-- The outside during one operation: the clock, the random id and nonce, and whether the broker
-- takes a message on alerts/events and on alerts/active, and the database the alert and each job.
pub record Outside : Type 0 where
  pub now : ℕ
  pub new_id : Text
  pub new_nonce : Text
  pub events_ok : Bool
  pub active_ok : Bool
  pub save_ok : Bool
  pub enqueues : Job → Bool

-- The part of Server that does not change.
pub record Setup (signer : Signer) : Type 0 where
  pub priv : signer.PrivateKey
  pub nfc : Text → Text
  pub marshal : Alert → Text
  pub ntfy : Bool
  pub config : Config
  pub senders : List Sender

unfoldable pub is_expired : ℕ → Alert → Bool
is_expired now a = ltb (a.issued_at + a.ttl) (now / second)

-- The publish of a retained message on alerts/active; an error is only logged.
abbrev pub retain : Outside → Text → Server → Server
retain io payload s = if io.active_ok then record s { retained = payload } else s

-- `cur != nil && now <= cur.IssuedAt+cur.TTL`, and then whether its severity is above that of `a`.
unfoldable pub outranks : ℕ → Option Alert → Alert → Bool
outranks now none a = false
outranks now (some cur) a =
    not (is_expired now cur) && ltb (severity_rank a.severity) (severity_rank cur.severity)

-- maybeSetActive
unfoldable pub maybe_set_active : Outside → Alert → Text → Server → Server
maybe_set_active io a payload s =
    if outranks io.now s.active a then s else retain io payload (record s { active = some a })

-- The body of POST /api/publish; a `ttl` that is not positive is 0 here.
pub record PublishReq : Type 0 where
  pub severity : Text
  pub category : Text
  pub title : Text
  pub body : Text
  pub action : Text
  pub ttl : ℕ

pub data Answer : Type 0 where
  bad_request : InputError → Answer
  bad_gateway : Answer
  published : Alert → Answer

-- What the outside says to a heartbeat: the store's ping and the broker's publish, each with its
-- error.
pub record Pulse : Type 0 where
  pub now : ℕ
  pub ping_err : Option Text
  pub publish_err : Option Text

-- selfCheck
unfoldable pub self_check : Option Text → Server → Text × Text
self_check (some e) s = (health_degraded, text "store unreachable: " ++ e)
self_check none s =
    if s.last_publish_err == []
    then (health_ok, [])
    else (health_degraded, text "last broker publish failed: " ++ s.last_publish_err)

-- notePublishResult
unfoldable pub note_publish_result : Option Text → Server → Server
note_publish_result none s = record s { last_publish_err = [] }
note_publish_result (some e) s = record s { last_publish_err = e }

unfoldable pub active_count : ℕ → Server → ℕ
active_count now s = elim s.active [ none ↦ 0 | some a ↦ if is_expired now a then 0 else 1 ]

-- The alert that CancelByID signs.
unfoldable pub cancel_alert : Outside → Text → Text → Alert
cancel_alert io original source = record {
  schema_version = schema_version;
  id = io.new_id;
  type = text "cancel";
  category = text "custom";
  severity = notice;
  title = text "警报已解除";
  body = [];
  action = [];
  source = source;
  issued_at = io.now / second;
  ttl = max_skew;
  nonce = io.new_nonce;
  cancels = original;
  sig = [];
}

abbrev pub holds : Text → Option Alert → Bool
holds i none = false
holds i (some a) = a.id == i

unfoldable pub clear_active : Outside → Text → Server → Server
clear_active io original s =
    if holds original s.active then retain io [] (record s { active = none }) else s

-- sweepExpiredActive
unfoldable pub sweep_expired_active : Outside → Server → Server
sweep_expired_active io s = elim s.active [
  | none ↦ s
  | some a ↦ if is_expired io.now a then retain io [] (record s { active = none }) else s
]

-- The alert that handlePublish builds.
unfoldable pub panel_alert : Outside → PublishReq → Alert
panel_alert io req = record {
  schema_version = schema_version;
  id = io.new_id;
  type = text "alert";
  category = req.category;
  severity = req.severity;
  title = req.title;
  body = req.body;
  action = if req.action == [] then default_action req.category else req.action;
  source = text "panel";
  issued_at = io.now / second;
  ttl = if req.ttl == 0 then default_ttl req.severity else req.ttl;
  nonce = io.new_nonce;
  cancels = [];
  sig = [];
}

module _ (signer : Signer) (setup : Setup signer) where
  open setup use {priv, nfc, marshal, ntfy, config, senders}

  abbrev pub signed : Alert → Alert
  signed a = sign signer nfc priv a

  abbrev pub post : Alert → Server → Server
  post a s = if ntfy then record s { posts = s.posts ++ a ∷ [] } else s

  abbrev pub persist : Outside → Alert → ℕ → Server → Server
  persist io a org s = if io.save_ok then record s { rows = save a org s.rows } else s

  abbrev pub hand_over : Outside → Alert → ℕ → Server → Server
  hand_over io a org s =
      if ltb 0 (length senders)
      then record s {
        outbox = enqueue config senders io.enqueues a org (marshal a) (io.now / second) s.outbox;
      }
      else s

  -- PublishAlert after its broadcast.
  unfoldable pub after_broadcast : Outside → Alert → ℕ → Server → Server
  after_broadcast io a org s =
      let s1 = maybe_set_active io a (marshal a) s in
      let s2 = hand_over io a org (persist io a org (post a s1)) in
      record s2 { ladder = track_for_ack a io.now s2.ladder }

  -- PublishAlert: the flag is the absence of an error.
  unfoldable pub publish_alert : Outside → Alert → ℕ → Server → Server × Bool
  publish_alert io a org s =
      if io.events_ok
      then (
        after_broadcast io (signed a) org
            (record s { events = s.events ++ marshal (signed a) ∷ [] }),
        true,
      )
      else (s, false)

  -- RenewAlert
  unfoldable pub renew_alert : Outside → Alert → ℕ → Server → Server × Bool
  renew_alert io a org s =
      publish_alert io (record a { issued_at = io.now / second; nonce = io.new_nonce; sig = [] })
        org s

  -- CancelByID after its broadcast.
  unfoldable pub after_recall : Outside → Text → Alert → ℕ → Server → Server
  after_recall io original c org s =
      let s2 = persist io c org (post c (clear_active io original s)) in
      record s2 { ladder = stop_escalation original s2.ladder }

  -- CancelByID
  unfoldable pub cancel_by_id : Outside → Text → Text → ℕ → Server → Server × Option Alert
  cancel_by_id io original source org s =
      let c = signed (cancel_alert io original source) in
      if io.events_ok
      then (
        after_recall io original c org (record s { events = s.events ++ marshal c ∷ [] }),
        some c,
      )
      else (s, none)

  -- handlePublish for a POST with a JSON body.
  unfoldable pub handle_publish : Outside → PublishReq → ℕ → Server → Server × Answer
  handle_publish io req org s =
      let a = panel_alert io req in
      elim (validate_input req.severity req.category req.title req.body a.action (text "panel")) [
        | some e ↦ (s, bad_request e)
        | none ↦
            let (s', ok) = publish_alert io a org s in
            if ok then (s', published (signed a)) else (s', bad_gateway)
      ]

  -- One call of `beat`, the closure of RunHeartbeat, by the last `seq`: what it publishes, and the
  -- server after it.
  unfoldable pub beat : Pulse → ℕ → Server → Heartbeat × Server
  beat io seq s = (
    sign_heartbeat signer priv (record {
      schema_version = schema_version;
      type = text "heartbeat";
      seq = seq + 1;
      issued_at = io.now / second;
      interval = heartbeat_interval;
      active_count = active_count io.now s;
      health = (self_check io.ping_err s).0;
      sig = [];
    }),
    note_publish_result io.publish_err s,
  )

  -- RunHeartbeat: the beats that it publishes.
  unfoldable pub run_heartbeat : List Pulse → ℕ → Server → List Heartbeat
  run_heartbeat [] seq s = []
  run_heartbeat (io ∷ ios) seq s = let (h, s') = beat io seq s in h ∷ run_heartbeat ios (seq + 1) s'
