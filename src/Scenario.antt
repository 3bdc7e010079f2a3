-- ===== src/Scenario.antt =====
-- server/internal/scenario/scenario.go and api/scenario_handlers.go: the one-tap templates.
pub mod Wording
mod Tests
use aleart_hub.Base.{
  ℕ, ◌+◌, ◌/◌, Bool, true, false, ◌&&◌, Option, none, some, List, [], ◌∷◌, ◌++◌, if◌then◌else◌,
  ◌==◌, nat_eq, text_eq, Text, text, lower, oneline,
}
use aleart_hub.Alert.{Alert, Signer, InputError, schema_version, validate_input}
use aleart_hub.Escalation.{second}
use aleart_hub.Server.{Server, Outside, Setup, publish_alert, signed}

pub record Scenario : Type 0 where
  pub id : Text
  pub label : Text
  pub icon : Text
  pub severity : Text
  pub category : Text
  pub title : Text
  pub body : Text
  pub action : Text
  pub response_type : Text
  pub ttl : ℕ

-- The variable `all`, and All.
unfoldable pub all : List Scenario
all =
    record {
      id = text "evacuate";
      label = text "立即撤离";
      icon = text "🚪";
      severity = text "emergency";
      category = text "fire";
      title = text "立即撤离";
      body = text "请立即离开建筑，前往预定集合点。";
      action = text "立即撤离，不要乘电梯";
      response_type = text "Evacuate";
      ttl = 600;
    }
    ∷ record {
      id = text "shelter";
      label = text "就地避险";
      icon = text "🏠";
      severity = text "emergency";
      category = text "weather";
      title = text "就地避险";
      body = text "不要外出。留在室内，远离门窗。";
      action = text "就地避险，远离门窗";
      response_type = text "Shelter";
      ttl = 900;
    }
    ∷ record {
      id = text "lockdown";
      label = text "锁闭";
      icon = text "🔒";
      severity = text "emergency";
      category = text "security";
      title = text "锁闭";
      body = text "锁门、关灯、保持安静，等待解除通知。";
      action = text "锁门躲避，保持安静";
      response_type = text "Shelter";
      ttl = 900;
    }
    ∷ record {
      id = text "dropcover";
      label = text "趴下·掩护·抓牢";
      icon = text "🌐";
      severity = text "emergency";
      category = text "earthquake";
      title = text "正在发生地震";
      body = text "强烈摇晃即将到达。";
      action = text "趴下，掩护，抓牢";
      response_type = text "Shelter";
      ttl = 120;
    }
    ∷ record {
      id = text "allclear";
      label = text "警报解除";
      icon = text "✅";
      severity = text "notice";
      category = text "custom";
      title = text "警报解除";
      body = text "情况已解除，可恢复正常活动。";
      action = text "恢复正常活动";
      response_type = text "AllClear";
      ttl = 600;
    }
    ∷ []

-- U+017F and U+212A fold to `s` and `k`; no other rune beyond ASCII folds to an ASCII one.
unfoldable pub fold_onto : ℕ → Text → Text
fold_onto a [] = lower a ∷ []
fold_onto a (b ∷ []) = if a == 0xC5 && b == 0xBF then b's' ∷ [] else lower a ∷ b ∷ []
fold_onto a (b ∷ c ∷ s) =
    if a == 0xC5 && b == 0xBF
    then b's' ∷ c ∷ s
    else if a == 0xE2 && (b == 0x84 && c == 0xAA)
    then b'k' ∷ s
    else lower a ∷ b ∷ c ∷ s

-- The case folding of strings.EqualFold, as far as a comparison with an ASCII text tells.
unfoldable pub fold_case : Text → Text
fold_case [] = []
fold_case (a ∷ s) = fold_onto a (fold_case s)

unfoldable pub find_in : Text → List Scenario → Option Scenario
find_in id [] = none
find_in id (sc ∷ scs) =
    let rest = find_in id scs in if fold_case sc.id == fold_case id then some sc else rest

-- Get
unfoldable pub get : Text → Option Scenario
get id = find_in id all

-- The body of the template with the note, if one is left after the clean-up.
unfoldable pub with_note : Text → Text → Text
with_note body note = if oneline note == [] then body else body ++ (text "  " ++ oneline note)

unfoldable pub scenario_alert : Outside → Scenario → Text → Alert
scenario_alert io sc body = record {
  schema_version = schema_version;
  id = io.new_id;
  type = text "alert";
  category = sc.category;
  severity = sc.severity;
  title = sc.title;
  body = body;
  action = sc.action;
  source = text "scenario:" ++ sc.id;
  issued_at = io.now / second;
  ttl = sc.ttl;
  nonce = io.new_nonce;
  cancels = [];
  sig = [];
}

pub data ScenarioReply : Type 0 where
  unknown_scenario : ScenarioReply
  bad_scenario : InputError → ScenarioReply
  not_published : ScenarioReply
  fired : Alert → ScenarioReply

-- handlePublishScenario for a POST whose body decodes; its audit entry is left out.
unfoldable pub handle_publish_scenario :
    (signer : Signer) → Setup signer → Outside → Text → Text → ℕ → Server → Server × ScenarioReply
handle_publish_scenario signer setup io id note org s = elim (get id) [
  | none ↦ (s, unknown_scenario)
  | some sc ↦
      let body = with_note sc.body note in
      let a = scenario_alert io sc body in
      let (s', sent) = publish_alert signer setup io a org s in
      elim (validate_input sc.severity sc.category sc.title body sc.action (text "scenario")) [
        | some e ↦ (s, bad_scenario e)
        | none ↦ if sent then (s', fired (signed signer setup a)) else (s', not_published)
      ]
]
