-- ===== src/Server/Tests.antt =====
-- Runs of the server.
use mathlib.Core.Option.{map as option_map}
use aleart_hub.Escalation.{EscalationState}
use aleart_hub.Base.{
  ◌++◌, ◌==◌, text_eq, if◌then◌else◌, Text, ◌*◌, ◌≤◌, ◌≡◌, refl, true, false, none, some, List, [],
  ◌∷◌, ◌++◌, text, no_keys,
}
use aleart_hub.Alert.{
  Alert, severity_rank, severity_rank?, warning, critical, validate_input, valid_category,
  default_action, sign, breaks_line,
}
use aleart_hub.Alert.Tests.{fire, toy, toy_laws, same}
use aleart_hub.Delivery.Tests.{usual, hooks, empty}
use aleart_hub.Escalation.{second}
use aleart_hub.Server.{
  Server, Outside, Setup, PublishReq, Pulse, Row, published, signed, publish_alert, cancel_by_id,
  panel_alert, handle_publish, is_expired,
}
use aleart_hub.Server.Topics.{publishes, recalls, stays, goes}
use aleart_hub.Server.Wire.{IsMirrored, Reaches-IsMirrored}
use aleart_hub.Server.Authentic.{AllGenuine, Reaches-AllGenuine}
use aleart_hub.Server.Active.{winner, level, publish_alert_active}
use aleart_hub.Server.Recall.{cancel_by_id_lem}

abbrev pub site : Setup toy
site = record {
  priv = tt;
  nfc = same;
  marshal = λ a. a.id ++ a.sig;
  ntfy = true;
  config = usual;
  senders = hooks;
}

abbrev pub start : Server
start = record {
  active = none;
  retained = [];
  events = [];
  posts = [];
  rows = [];
  ladder = no_keys;
  outbox = empty;
  last_publish_err = [];
}

abbrev pub fine : Outside
fine = record {
  now = 1_700_000_010 * second;
  new_id = text "n1";
  new_nonce = text "aa";
  events_ok = true;
  active_ok = true;
  save_ok = true;
  enqueues = λ j. true;
}

abbrev later : Outside
later = record fine { now = 1_700_000_900 * second; active_ok = false }

abbrev burning : Server
burning = (publish_alert toy site fine fire 1 start).0

abbrev ended : Server
ended = (cancel_by_id toy site fine (text "a1") (text "panel") 1 burning).0

Reaches-IsMirrored_example : IsMirrored site ended
Reaches-IsMirrored_example =
    Reaches-IsMirrored toy site start ended
      (goes start burning ended
        (goes start start burning (stays start) (publishes fine fire 1 start refl))
        (recalls fine (text "a1") (text "panel") 1 burning refl))
      refl

Reaches-AllGenuine_example : AllGenuine toy toy_laws site ended
Reaches-AllGenuine_example =
    Reaches-AllGenuine toy toy_laws site start ended
      (goes start burning ended
        (goes start start burning (stays start) (publishes fine fire 1 start tt))
        (recalls fine (text "a1") (text "panel") 1 burning tt))
      tt

-- A warning while a critical alert is active.
abbrev mild : Alert
mild = record fire { id = text "w1"; severity = warning }

abbrev on_fire : Server
on_fire = record start { active = some fire; retained = text "old" }

publish_alert_active_example :
    (x : Alert) × ((publish_alert toy site fine mild 1 on_fire).0.active ≡ some x)
    × (x ≡ winner fine.now (some fire) (signed toy site mild))
    × (level mild.severity ≤ level x.severity)
publish_alert_active_example = publish_alert_active toy site fine mild 1 on_fire refl

fire_stays : winner fine.now (some fire) (signed toy site mild) ≡ fire
unfolding is_expired severity_rank severity_rank? sign
fire_stays = refl

fire_over : is_expired later.now fire ≡ true
unfolding is_expired
fire_over = refl

cancel_by_id_lem_example :
    let t = (cancel_by_id toy site fine (text "a1") (text "eew") 1 on_fire).0 in
    (c : Alert) × (t.events ≡ on_fire.events ++ site.marshal c ∷ [])
    × (c ≡ signed toy site c)
    × (c.type ≡ text "cancel")
    × (c.cancels ≡ text "a1")
    × (c.id ≡ fine.new_id)
    × (t.active ≡ none)
    × ((k : Text)
        → t.ladder k ≡ (
            if k == text "a1"
            then option_map (λ (st : EscalationState). record st { done = true }) (on_fire.ladder k)
            else on_fire.ladder k))
    × (t.outbox ≡ on_fire.outbox)
cancel_by_id_lem_example = cancel_by_id_lem toy site fine (text "a1") (text "eew") 1 on_fire refl

abbrev down : Outside
down = record fine { events_ok = false }

abbrev kept : List Row
kept = record { org_id = 4; alert = fire } ∷ record { org_id = 4; alert = mild } ∷ []

abbrev pulses : List Pulse
pulses =
    record { now = 100 * second; ping_err = none; publish_err = some (text "no broker") }
    ∷ record { now = 110 * second; ping_err = none; publish_err = none }
    ∷ record { now = 120 * second; ping_err = some (text "locked"); publish_err = none }
    ∷ []

abbrev request : PublishReq
request = record {
  severity = critical;
  category = text "fire";
  title = text "Smoke";
  body = [];
  action = [];
  ttl = 0;
}

abbrev answered : Alert
answered = signed toy site (panel_alert fine request)

request-published : (handle_publish toy site fine request 1 start).1 ≡ published answered
unfolding handle_publish validate_input severity_rank? valid_category publish_alert panel_alert
    default_action breaks_line
request-published = refl
