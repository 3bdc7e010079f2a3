-- ===== src/Drill/Tests.antt =====
-- A drill with two devices online, of which one answers.
use aleart_hub.Base.{◌≡◌, ◌↔◌, refl, true, false, some, List, [], ◌∷◌, ◌++◌, any, Text, text}
use aleart_hub.Alert.{warning}
use aleart_hub.Alert.Tests.{toy}
use aleart_hub.Server.Tests.{site, start, fine}
use aleart_hub.Devices.{Message, ack_message}
use aleart_hub.Devices.History.{run, last_word, confirms, empty_hub}
use aleart_hub.Devices.Tests.{json, come_up}
use aleart_hub.Drill.{DrillConfig, DrillResult, Site, Closing, run_drill_once}
use aleart_hub.Drill.Verdict.{run_drill_once_lem}

abbrev weekly : DrillConfig
weekly = record { weekday = 0; hour = 10; minute = 0; window = 600; severity = warning }

abbrev answers : List Message
answers = ack_message true 20 (text "alerts/n1/ack/d1") (text "{}") ∷ []

abbrev over : Closing
over = record {
  cancelled = false;
  now = 1_700_000_610_000_000_000;
  new_nonce = text "bb";
  readable = true;
  written = true;
}

abbrev two_up : Site
two_up = record {
  server = start;
  hub = run json 1 come_up empty_hub;
  drills = record { next_id = 1; rows = [] };
  trail = [];
}

run_drill_once_lem_example :
    (res : DrillResult) × ((run_drill_once toy site json weekly 1 fine answers over two_up).1
      ≡ some res)
    × ((res.passed ≡ true) ↔ (
        (d : Text)
        → last_word json d false come_up ≡ true
        → any (confirms fine.new_id d) (come_up ++ answers) ≡ true))
run_drill_once_lem_example =
    run_drill_once_lem toy site json weekly 1 fine come_up answers over two_up refl refl refl refl
