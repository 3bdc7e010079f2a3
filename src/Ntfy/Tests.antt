-- ===== src/Ntfy/Tests.antt =====
-- Posts of the backup channel.
use aleart_hub.Base.{◌≡◌, refl, [], ◌∷◌, text}
use aleart_hub.Alert.{Alert}
use aleart_hub.Alert.Tests.{fire}
use aleart_hub.Ntfy.{Config, publish, escalate}
use aleart_hub.Ntfy.Privacy.{posts_private}

abbrev relay : Config
relay = record {
  base_url = [];
  token = [];
  topic_prefix = text "alerthub-";
  public_topic = text "x7";
  public_url = text "https://ntfy.sh";
}

abbrev secret : Alert
secret = record fire { title = text "Room 12"; body = text "J. Doe" }

posts_private_example :
    (publish relay fire ≡ publish relay secret)
    × (escalate relay fire 2 (text "d1" ∷ []) ≡ escalate relay fire 2 [])
posts_private_example = posts_private relay fire secret 2 (text "d1" ∷ []) [] refl refl refl
