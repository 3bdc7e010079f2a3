-- ===== src/Quake/Tests.antt =====
-- A warning, its recall, and another earthquake.
use aleart_hub.Base.{◌≡◌, refl, true, false, [], ◌∷◌, text, no_keys}
use aleart_hub.Alert.{emergency, warning}
use aleart_hub.Alert.Tests.{toy}
use aleart_hub.Eew.{Event, Seen}
use aleart_hub.Server.{holds}
use aleart_hub.Server.Tests.{site, start, fine}
use aleart_hub.Quake.{quake_id, run_quakes}
use aleart_hub.Quake.Cancel.{recall_sticks}

abbrev shaking : Event
shaking = record {
  event_id = text "e1";
  serial = 1;
  severity = emergency;
  title = text "T";
  body = [];
  action = [];
  is_cancel = false;
  is_test = false;
  is_upgrade = false;
}

abbrev recall : Event
recall = record shaking { is_cancel = true }

abbrev elsewhere : Event
elsewhere = record shaking { event_id = text "e2"; severity = warning }

abbrev nothing_seen : Seen
nothing_seen = no_keys

recall_sticks_example :
    holds
      (quake_id (text "e1"))
      (run_quakes toy site 1
        ((fine, shaking) ∷ (fine, recall) ∷ (fine, elsewhere) ∷ [])
        (nothing_seen, start)).1.active
    ≡ false
recall_sticks_example =
    recall_sticks toy site 1 ((fine, shaking) ∷ []) ((fine, elsewhere) ∷ []) fine recall
      (nothing_seen, start) refl refl (refl, tt)
