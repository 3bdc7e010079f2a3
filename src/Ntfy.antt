-- ===== src/Ntfy.antt =====
-- server/internal/ntfy/ntfy.go: what the backup channel posts, and where. The HTTP post itself and
-- its error are outside.
pub mod Privacy
mod Tests
use aleart_hub.Base.{
  ℕ, ◌+◌, Bool, true, false, not, ◌&&◌, ◌||◌, List, [], ◌∷◌, ◌++◌, if◌then◌else◌, ◌==◌, text_eq,
  ltb, Text, text, length,
}
use aleart_hub.Alert.{Alert, warning, critical, emergency}

pub record Config : Type 0 where
  pub base_url : Text
  pub token : Text
  pub topic_prefix : Text
  pub public_topic : Text
  pub public_url : Text

-- New: the defaults.
unfoldable pub with_defaults : Config → Config
with_defaults c = record c {
  public_url = if c.public_url == [] then text "https://ntfy.sh" else c.public_url;
  topic_prefix = if c.topic_prefix == [] then text "alerthub-" else c.topic_prefix;
}

unfoldable pub is_enabled : Config → Bool
is_enabled c = not (c.base_url == []) || not (c.public_topic == [])

pub record Msg : Type 0 where
  pub topic : Text
  pub title : Text
  pub message : Text
  pub priority : ℕ
  pub tags : List Text
  pub click : Text

-- A post: the base URL, the token and the message.
pub record Post : Type 0 where
  pub base : Text
  pub token : Text
  pub msg : Msg

abbrev pub is_grave : Text → Bool
is_grave sev = sev == critical || sev == emergency

unfoldable pub priority_for : Text → ℕ
priority_for sev = if is_grave sev then 5 else if sev == warning then 3 else 2

unfoldable pub tags_for : Text → Text → List Text
tags_for sev cat =
    if sev == emergency
    then text "rotating_light" ∷ text "siren" ∷ cat ∷ []
    else if sev == critical
    then text "warning" ∷ cat ∷ []
    else text "information_source" ∷ cat ∷ []

unfoldable pub generic_title : Text → Text → Text
generic_title cat sev =
    if cat == text "earthquake"
    then text "EARTHQUAKE — strong shaking"
    else if cat == text "fire"
    then text "FIRE / SMOKE alert"
    else if cat == text "weather"
    then text "WEATHER emergency"
    else sev ++ text " alert"

-- The self-hosted post of Publish.
unfoldable pub private_post : Config → Alert → Post
private_post c a = record {
  base = c.base_url;
  token = c.token;
  msg = record {
    topic = c.topic_prefix ++ a.category;
    title = a.title;
    message = if a.action == [] then a.body else a.body ++ text "  →  " ++ a.action;
    priority = priority_for a.severity;
    tags = tags_for a.severity a.category;
    click = [];
  };
}

-- The post of Publish to the public relay.
unfoldable pub public_post : Config → Alert → Post
public_post c a = record {
  base = c.public_url;
  token = [];
  msg = record {
    topic = c.public_topic;
    title = text "AlertHub: " ++ generic_title a.category a.severity;
    message = text "Open AlertHub / heed official channels (cell broadcast, smoke alarms).";
    priority = 5;
    tags = tags_for a.severity a.category;
    click = [];
  };
}

-- Publish: its posts in order.
unfoldable pub publish : Config → Alert → List Post
publish c a =
    if is_enabled c
    then (if c.base_url == [] then [] else private_post c a ∷ [])
      ++ (if not (c.public_topic == []) && is_grave a.severity then public_post c a ∷ [] else [])
    else []

-- strings.Join(pending, ", ")
unfoldable pub join_devices : List Text → Text
join_devices [] = []
join_devices (d ∷ []) = d
join_devices (d ∷ e ∷ ds) = d ++ text ", " ++ join_devices (e ∷ ds)

unfoldable pub louder : Text → Text → Text → Alert → ℕ → Text → Post
louder base token topic a phase message = record {
  base = base;
  token = token;
  msg = record {
    topic = topic;
    title = text "⚠ 仍未确认 · " ++ a.title;
    message = message;
    priority = if ltb 5 (4 + phase) then 5 else 4 + phase;
    tags = text "rotating_light" ∷ text "bangbang" ∷ [];
    click = [];
  };
}

unfoldable pub with_devices : Text → List Text → Text
with_devices body [] = body
with_devices body (d ∷ ds) = body ++ text "  未确认设备: " ++ join_devices (d ∷ ds)

-- Escalate: its posts in order.
unfoldable pub escalate : Config → Alert → ℕ → List Text → List Post
escalate c a phase pending =
    if is_enabled c
    then (if c.base_url == []
        then []
        else louder c.base_url c.token (c.topic_prefix ++ a.severity) a phase
            (with_devices a.body pending)
          ∷ [])
      ++ (if c.public_topic == []
          then []
          else louder (text "https://ntfy.sh") [] c.public_topic a phase a.body ∷ [])
    else []
