-- ===== src/Cap/Tests.antt =====
-- The CAP theorems at concrete documents.
use aleart_hub.Base.{
  ℕ, ◌≡◌, refl, Option, none, [], ◌∷◌, arith, Text, text, if◌then◌else◌, ◌&&◌, ◌==◌, text_eq, ltb,
  trim_space, IsToken,
}
use aleart_hub.Alert.{Alert, warning}
use aleart_hub.Alert.Tests.{fire}
use aleart_hub.Cap.{
  Document, rank, collapse_severity, map_to_alert, fill, blank, map_info, body_of, gated_severity,
  response_action, ttl_from, fallback_ttl, first_non_empty, cap_category,
}
use aleart_hub.Cap.Outgoing.{to_out_alert, read_back}
use aleart_hub.Cap.References.{IsCapName}
use aleart_hub.Cap.RoundTrip.{map_to_alert-to_out_alert}

abbrev no_time : Text → Option ℕ
no_time s = none

abbrev no_clock : ℕ → Text
no_clock t = text "2026-01-01T00:00:00Z"

abbrev exercise : Document
exercise = record {
  identifier = text "X1";
  sender = text "jma";
  sent = [];
  status = text "Exercise";
  msg_type = text "Alert";
  scope = [];
  references = [];
  info =
      record {
        language = [];
        category = text "Geo";
        event = text "Quake";
        response_type = text "Shelter";
        urgency = text "Immediate";
        severity = text "Extreme";
        certainty = text "Observed";
        headline = text "  ";
        description = text " Shaking\n";
        instruction = text "Drop";
        expires = [];
        onset = [];
      }
      ∷ [];
}

exercise_maps :
    let m = map_to_alert no_time exercise 0 in
    (m.severity ≡ warning)
    × (m.title ≡ text "Quake")
    × (m.body ≡ text "Shaking  Drop")
    × (m.ttl ≡ 600)
unfolding map_to_alert fill blank map_info body_of gated_severity collapse_severity rank
    response_action ttl_from fallback_ttl first_non_empty cap_category trim_space
exercise_maps = (refl, refl, refl, refl)

abbrev recall : Alert
recall = record fire { type = text "cancel"; cancels = text "cap-00ff" }

clock_is_word : (t : ℕ) → IsToken (no_clock t)
clock_is_word t = omega arith

hub_name : IsCapName (text "hub")
hub_name = omega arith

recalled_name : IsCapName recall.cancels
recalled_name = omega arith

map_to_alert-to_out_alert_example :
    let m = map_to_alert no_time (read_back (to_out_alert no_clock fire (text "hub"))) 0 in
    let drill = fire.source == text "drill" in
    (m.category ≡ fire.category)
    × (m.is_test ≡ drill)
    × (m.severity
        ≡ (if drill && ltb (rank warning) (rank fire.severity) then warning else fire.severity))
map_to_alert-to_out_alert_example =
    map_to_alert-to_out_alert no_time no_clock fire (text "hub") 0 (ground arith) (ground arith)
