-- ===== src/Eew.antt =====
-- server/internal/eew: the two earthquake relays (wolfx.go, p2pquake.go) and the deduper that
-- they share (dedup.go). JSON decoding, floats and strconv.Atoi are parameters; a frame that is
-- not JSON is `none`.
pub mod Mapping
pub mod Dedup
mod Tests
use aleart_hub.Base.{
  ℕ, zero, suc, ◌*◌, Bool, true, false, not, ◌&&◌, ◌||◌, Option, none, some, List, [], ◌∷◌, ◌++◌,
  if◌then◌else◌, ◌==◌, ltb, leb, nat_eq, text_eq, Text, text, oneline, Map, put, delete,
}
use aleart_hub.Alert.{warning, critical, emergency, severity_rank}

pub record WolfxMsg : Type 0 where
  pub type : Text
  pub title : Text
  pub event_id : Text
  pub serial : ℕ
  pub hypocenter : Text
  pub magnitude : Text
  pub max_intensity : Text
  pub is_cancel : Bool
  pub is_training : Bool

pub record Event : Type 0 where
  pub event_id : Text
  pub serial : ℕ
  pub severity : Text
  pub title : Text
  pub body : Text
  pub action : Text
  pub is_cancel : Bool
  pub is_test : Bool
  pub is_upgrade : Bool

unfoldable pub rank : Text → ℕ
unfolding severity_rank
rank s = severity_rank s

unfoldable pub severity_for_intensity : Text → Text
severity_for_intensity max_int =
    if max_int == text "6-" || max_int == text "6+" || max_int == text "7"
    then emergency
    else if max_int == text "5-" || max_int == text "5+" || max_int == text "4"
    then critical
    else warning

-- A training or test message is held down to `warning`.
unfoldable pub hold_test : Bool → Text → Text
hold_test is_test severity =
    if is_test && ltb (rank warning) (rank severity) then warning else severity

-- A heartbeat, a ping or another feed's message.
unfoldable pub is_unrelated : WolfxMsg → Bool
is_unrelated m = m.event_id == [] || not (m.type == []) && not (m.type == text "jma_eew")

unfoldable pub wolfx_event : WolfxMsg → Event
wolfx_event m =
    let title = if m.title == [] then text "緊急地震速報" else m.title in
    let shown =
      if m.max_intensity == [] then title else title ++ (text " 最大震度" ++ m.max_intensity) in
    let body =
      if m.magnitude == [] then m.hypocenter else m.hypocenter ++ (text " M" ++ m.magnitude) in
    record {
      event_id = m.event_id;
      serial = m.serial;
      severity = hold_test m.is_training (severity_for_intensity m.max_intensity);
      title = oneline shown;
      body = oneline body;
      action = text "頭を守り、低く・動かず・身を守る";
      is_cancel = m.is_cancel;
      is_test = m.is_training;
      is_upgrade = false;
    }

unfoldable pub map_wolfx : Option WolfxMsg → Option Event
map_wolfx none = none
map_wolfx (some m) = if is_unrelated m then none else some (wolfx_event m)

-- P2PQuake's scale is ten times the intensity, and negative when it is not known.
pub data Scale : Type 0 where
  known : ℕ → Scale
  negative : Scale

unfoldable pub scale_to_intensity : Scale → Text
scale_to_intensity negative = []
scale_to_intensity (known scale) =
    if leb 70 scale
    then text "7"
    else if leb 60 scale
    then text "6+"
    else if leb 55 scale
    then text "6-"
    else if leb 50 scale
    then text "5+"
    else if leb 45 scale
    then text "5-"
    else if leb 40 scale
    then text "4"
    else if leb 30 scale
    then text "3"
    else if leb 20 scale
    then text "2"
    else if leb 10 scale
    then text "1"
    else []

module _ (Float : Type 0) where
  pub record P2pMsg : Type 0 where
    pub code : ℕ
    pub event_id : Text
    pub serial : Text
    pub name : Text
    pub magnitude : Float
    pub max_scale : Scale
    pub cancelled : Bool
    pub test : Bool

  -- 556 is the early-warning channel.
  unfoldable pub is_other : P2pMsg → Bool
  is_other m = not (m.code == 556) || m.event_id == []

  -- `format_float f` is strconv.FormatFloat(f, 'f', 1, 64); `atoi` reads 0 from what is no number.
  module _ (positive : Float → Bool) (format_float : Float → Text) (atoi : Text → ℕ) where
    unfoldable pub p2p_event : P2pMsg → Event
    p2p_event m =
        let intensity = scale_to_intensity m.max_scale in
        let place = oneline m.name in
        let shown = if place == [] then text "震源不明" else place in
        let body = text "最大震度 " ++ intensity in
        let full =
          if positive m.magnitude
          then body ++ (text " · M" ++ format_float m.magnitude)
          else body in
        record {
          event_id = m.event_id;
          serial = atoi m.serial;
          severity = hold_test m.test (severity_for_intensity intensity);
          title = text "緊急地震速報（" ++ (shown ++ text "）");
          body = oneline full;
          action = text "身の安全を確保 / 趴下，掩护，抓牢";
          is_cancel = m.cancelled;
          is_test = m.test;
          is_upgrade = false;
        }

    unfoldable pub map_p2pquake : Option P2pMsg → Option Event
    map_p2pquake none = none
    map_p2pquake (some m) = if is_other m then none else some (p2p_event m)

-- Deduper.seen: the highest severity rank that was emitted for each event.
abbrev pub Seen : Type 0
Seen = Map ℕ

-- Deduper.Emit: the new map, `emit` and `upgrade`.
unfoldable pub emit : Seen → Text → Text → Seen × Bool × Bool
emit seen event_id severity =
    let r = rank severity in
    elim (seen event_id) [
      | none ↦ (put seen event_id r, true, false)
      | some prev ↦ if ltb prev r then (put seen event_id r, true, true) else (seen, false, false)
    ]

-- Deduper.FirstSeen
unfoldable pub first_seen : Seen → Text → Seen × Bool
first_seen seen event_id = let (seen', emitted, _) = emit seen event_id [] in (seen', emitted)

-- Deduper.Forget
unfoldable pub forget : Seen → Text → Seen
forget seen event_id = delete seen event_id

-- What `runFeed` does with one mapped message: the new map and what it publishes.
unfoldable pub on_event : Seen → Event → Seen × Option Event
on_event seen ev =
    if ev.is_cancel
    then (forget seen ev.event_id, some ev)
    else let (seen', emitted, upgrade) = emit seen ev.event_id ev.severity in
      if emitted then (seen', some (record ev { is_upgrade = upgrade })) else (seen', none)

-- The messages of all sources, in the order in which they take the deduper's lock.
unfoldable pub feed : Seen → List Event → Seen × List Event
feed seen [] = (seen, [])
feed seen (ev ∷ evs) =
    let (seen', out) = on_event seen ev in
    let (final, rest) = feed seen' evs in (final, elim out [ none ↦ rest | some e ↦ e ∷ rest ])

-- sleepBackoff's next wait, in seconds.
unfoldable pub next_backoff : ℕ → ℕ
next_backoff b = if ltb 30 (b * 2) then 30 else b * 2
