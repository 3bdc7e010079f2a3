-- ===== src/Quake.antt =====
-- The closure that server/main.go gives to eew.Run: the earthquake feeds on the alerts of the
-- server.
pub mod Cancel
mod Tests
use aleart_hub.Base.{
  ℕ, ◌/◌, Bool, true, false, Option, none, some, List, [], ◌∷◌, ◌++◌, if◌then◌else◌, Text, text,
}
use aleart_hub.Alert.{Alert, Signer, schema_version}
use aleart_hub.Eew.{Event, Seen, on_event}
use aleart_hub.Escalation.{second}
use aleart_hub.Server.{Server, Outside, Setup, publish_alert, renew_alert, cancel_by_id}

abbrev pub quake_id : Text → Text
quake_id event_id = text "eew-" ++ event_id

unfoldable pub quake_alert : Outside → Event → Alert
quake_alert io ev = record {
  schema_version = schema_version;
  id = quake_id ev.event_id;
  type = text "alert";
  category = text "earthquake";
  severity = ev.severity;
  title = ev.title;
  body = ev.body;
  action = ev.action;
  source = text "eew";
  issued_at = io.now / second;
  ttl = 120;
  nonce = io.new_nonce;
  cancels = [];
  sig = [];
}

module _ (signer : Signer) (setup : Setup signer) (org : ℕ) where
  -- What the closure does with an event that the feed lets through.
  unfoldable pub on_quake : Outside → Event → Server → Server
  on_quake io ev s =
      if ev.is_cancel
      then (cancel_by_id signer setup io (quake_id ev.event_id) (text "eew") org s).0
      else if ev.is_upgrade
      then (renew_alert signer setup io (quake_alert io ev) org s).0
      else (publish_alert signer setup io (quake_alert io ev) org s).0

  unfoldable pub let_through : Outside → Option Event → Server → Server
  let_through io none s = s
  let_through io (some ev) s = on_quake io ev s

  -- The messages of the feeds, each with the outside at its time, on the deduper and the server.
  unfoldable pub run_quakes : List (Outside × Event) → Seen × Server → Seen × Server
  run_quakes [] st = st
  run_quakes ((io, ev) ∷ msgs) (seen, s) =
      let (seen', out) = on_event seen ev in run_quakes msgs (seen', let_through io out s)
