-- ===== src/Eew/Tests.antt =====
-- The relay theorems at concrete reports.
use aleart_hub.Base.{
  ◌≢◌, ◌↔◌, ◌⊎◌, ◌<◌, All, none, true, ◌≡◌, refl, true, false, some, List, [], ◌∷◌, text, no_keys,
  oneline,
}
use aleart_hub.Alert.{warning, emergency}
use aleart_hub.Eew.{
  WolfxMsg, Event, rank, emit, on_event, feed, map_wolfx, is_unrelated, wolfx_event, hold_test,
  severity_for_intensity, known, scale_to_intensity, P2pMsg, is_other, p2p_event, map_p2pquake,
}
use aleart_hub.Eew.Dedup.{since, on_event_published}

abbrev training : WolfxMsg
training = record {
  type = text "jma_eew";
  title = [];
  event_id = text "e1";
  serial = 1;
  hypocenter = text "Chiba";
  magnitude = text "6.1";
  max_intensity = text "6-";
  is_cancel = false;
  is_training = true;
}

abbrev trained : Event
trained = record {
  event_id = text "e1";
  serial = 1;
  severity = warning;
  title = text "緊急地震速報 最大震度6-";
  body = text "Chiba M6.1";
  action = text "頭を守り、低く・動かず・身を守る";
  is_cancel = false;
  is_test = true;
  is_upgrade = false;
}

training_maps : map_wolfx (some training) ≡ some trained
unfolding map_wolfx is_unrelated wolfx_event hold_test severity_for_intensity rank oneline
training_maps = refl

abbrev shaking : P2pMsg (Unit {0})
shaking = record {
  code = 556;
  event_id = text "e1";
  serial = text "2";
  name = [];
  magnitude = tt;
  max_scale = known 55;
  cancelled = false;
  test = false;
}

abbrev shaken : Event
shaken = record {
  event_id = text "e1";
  serial = 0;
  severity = emergency;
  title = text "緊急地震速報（震源不明）";
  body = text "最大震度 6-";
  action = text "身の安全を確保 / 趴下，掩护，抓牢";
  is_cancel = false;
  is_test = false;
  is_upgrade = false;
}

shaking_maps : map_p2pquake (Unit {0}) (λ m. false) (λ m. []) (λ s. 0) (some shaking) ≡ some shaken
unfolding map_p2pquake is_other p2p_event hold_test severity_for_intensity scale_to_intensity rank
    oneline
shaking_maps = refl

abbrev reports : List Event
reports = trained ∷ shaken ∷ trained ∷ []

-- The first report and the upgrade are published, the repeat is not.
reports_out : (feed no_keys reports).1 ≡ trained ∷ record shaken { is_upgrade = true } ∷ []
unfolding feed on_event emit rank
reports_out = refl

-- A repeat of the first report is held back, and a stronger one is not.
on_event_published_example : ((on_event (feed no_keys reports).0 shaken).1 ≢ none) ↔ (
    (shaken.is_cancel ≡ true) ⊎ All (λ r. r < rank shaken.severity) (since (text "e1") [] reports))
on_event_published_example = on_event_published reports shaken
