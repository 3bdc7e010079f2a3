-- ===== src/Devices/Tests.antt =====
-- Two devices, of which one confirms an alert.
use aleart_hub.Base.{
  ◌≡◌, refl, true, false, not, ◌&&◌, some, List, [], ◌∷◌, any, ◌==◌, text_eq, text, split_all,
}
use aleart_hub.Devices.{
  Json, Message, status_message, ack_message, presence_device, stated, pending_devices, ack_topic,
  silent_devices, receive, on_presence, set_presence, list_acks, sort_by_ack, on_ack, four_parts,
  record_ack, insert_by_ack,
}
use aleart_hub.Devices.History.{run, last_word, confirms, empty_hub, pending_devices_lem}

-- A payload is the state.
abbrev pub json : Json
json = record {
  presence = λ p. some (record { device_id = []; state = p; at = 0; client = []; last_seen = 0 });
  ack = λ p. record { alert_id = []; device_id = []; ack_at = 0; by = [] };
}

abbrev pub come_up : List Message
come_up =
    status_message 5 (text "status/d1") (text "online")
    ∷ status_message 6 (text "status/d2") (text "online")
    ∷ []

abbrev pub fire_ack : Message
fire_ack = ack_message true 9 (text "alerts/a1/ack/d1") (text "{}")

abbrev heard : List Message
heard =
    status_message 5 (text "status/d1") (text "online")
    ∷ status_message 6 (text "status/d2") (text "online")
    ∷ fire_ack
    ∷ status_message 10 (text "status/d2") (text "asleep")
    ∷ []

-- The message with a state that is neither changes nothing: d2 is still pending.
still_pending : pending_devices true 1 (text "a1") (run json 1 heard empty_hub) ≡ text "d2" ∷ []
unfolding pending_devices silent_devices receive on_presence presence_device stated set_presence
    list_acks sort_by_ack on_ack ack_topic four_parts split_all record_ack insert_by_ack
still_pending = refl

pending_devices_lem_example :
    any (λ x. x == text "d1") (pending_devices true 1 (text "a1") (run json 1 heard empty_hub))
    ≡ (last_word json (text "d1") false heard && not (any (confirms (text "a1") (text "d1")) heard))
pending_devices_lem_example = pending_devices_lem json 1 (text "a1") (text "d1") heard
