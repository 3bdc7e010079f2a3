-- ===== src/Broker.antt =====
-- server/internal/broker/broker.go: who may connect, and which topics a connection may use. The broker
-- itself is the library mochi-mqtt.
pub mod Topics
mod Tests
use aleart_hub.Base.{
  ℕ, Bool, true, false, not, ◌&&◌, ◌||◌, if◌then◌else◌, ◌==◌, text_eq, Text, text, has_prefix,
  contains,
}

pub record Creds : Type 0 where
  pub publisher_user : Text
  pub publisher_pass : Text
  pub client_user : Text
  pub client_pass : Text

-- OnConnectAuthenticate
unfoldable pub on_connect_authenticate : Creds → Text → Text → Bool
on_connect_authenticate h user pass =
    if user == h.publisher_user
    then pass == h.publisher_pass
    else if user == h.client_user
    then pass == h.client_pass
    else false

-- OnACLCheck: the flag is whether it is a publish.
unfoldable pub on_acl_check : Creds → Text → Text → Bool → Bool
on_acl_check h user topic write =
    if user == h.publisher_user
    then true
    else if user == h.client_user
    then (if not write
        then has_prefix (text "alerts/") topic
          || has_prefix (text "status/") topic
          || has_prefix (text "system/") topic
        else if has_prefix (text "alerts/") topic && contains (text "/ack/") topic
        then true
        else has_prefix (text "status/") topic)
    else false
