-- ===== src/Scenario/Tests.antt =====
-- The template `shelter`, asked for in capitals, with a note of two lines.
use aleart_hub.Base.{
  ◌≡◌, refl, some, ◌++◌, ◌∷◌, Text, text, trim_space, oneline, space_len, space_len_back, skip,
}
use aleart_hub.Alert.{Alert}
use aleart_hub.Server.Tests.{fine}
use aleart_hub.Scenario.{
  Scenario, all, fold_onto, fold_case, find_in, get, with_note, scenario_alert,
}

abbrev shelter : Scenario
shelter = record {
  id = text "shelter";
  label = text "就地避险";
  icon = text "🏠";
  severity = text "emergency";
  category = text "weather";
  title = text "就地避险";
  body = text "不要外出。留在室内，远离门窗。";
  action = text "就地避险，远离门窗";
  response_type = text "Shelter";
  ttl = 900;
}

get-shelter : get (text "SHELTER") ≡ some shelter
unfolding get find_in fold_case fold_onto all
get-shelter = refl

-- U+017F folds to `s`.
get-long_s : get (0xC5 ∷ 0xBF ∷ text "helter") ≡ some shelter
unfolding get find_in fold_case fold_onto all
get-long_s = refl

abbrev note : Text
note = text " Gate 3" ++ 10 ∷ text "closed "

note_sample : with_note shelter.body note ≡ shelter.body ++ text "  Gate 3 closed"
unfolding with_note oneline trim_space skip space_len space_len_back
note_sample = refl

abbrev made : Alert
made = scenario_alert fine shelter (with_note shelter.body note)
