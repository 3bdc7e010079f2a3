-- ===== src/Cap.antt =====
-- server/internal/cap/cap.go: CAP 1.2 in both directions. Times in RFC 3339 text, SHA-256 and XML
-- are parameters; an instant is a number of nanoseconds.
pub mod Outgoing
pub mod Severity
pub mod References
pub mod RoundTrip
mod Tests
use Prim.Native.Nat.{min}
use aleart_hub.Base.{
  ℕ, ◌+◌, ◌-◌, ◌/◌, ◌^◌, Bool, true, false, not, ◌&&◌, ◌||◌, Option, none, some, List, [], ◌∷◌,
  ◌++◌, if◌then◌else◌, ◌==◌, ltb, text_eq, nat_eq, Text, text, fields, split_n, trim_space, take,
  any,
}
use aleart_hub.Alert.{Alert, notice, warning, critical, emergency, severity_rank}

pub record Info : Type 0 where
  pub language : Text
  pub category : Text
  pub event : Text
  pub response_type : Text
  pub urgency : Text
  pub severity : Text
  pub certainty : Text
  pub headline : Text
  pub description : Text
  pub instruction : Text
  pub expires : Text
  pub onset : Text

pub record Document : Type 0 where
  pub identifier : Text
  pub sender : Text
  pub sent : Text
  pub status : Text
  pub msg_type : Text
  pub scope : Text
  pub references : Text
  pub info : List Info

pub record Mapped : Type 0 where
  pub identifier : Text
  pub msg_type : Text
  pub is_test : Bool
  pub category : Text
  pub severity : Text
  pub title : Text
  pub body : Text
  pub action : Text
  pub ttl : ℕ
  pub references : Text

pub record Reference : Type 0 where
  pub sender : Text
  pub identifier : Text
  pub sent : Text

-- SHA-256 of (sender, NUL, identifier), its first 12 bytes in hex.
unfoldable pub alert_id : (Text → Text) → (Text → Text) → Text → Text → Text
alert_id sha256 hex sender identifier =
    text "cap-" ++ hex (take 12 (sha256 (sender ++ 0 ∷ identifier)))

abbrev pub comma : ℕ
comma = 44

-- Missing parts read as "".
unfoldable pub reference_of : List Text → Reference
reference_of [] = record { sender = []; identifier = []; sent = [] }
reference_of (sender ∷ []) = record { sender = sender; identifier = []; sent = [] }
reference_of (sender ∷ identifier ∷ []) = record {
  sender = sender;
  identifier = identifier;
  sent = [];
}
reference_of (sender ∷ identifier ∷ sent ∷ _) = record {
  sender = sender;
  identifier = identifier;
  sent = sent;
}

unfoldable pub collect_references : List Text → List Reference
unfolding reference_of
collect_references [] = []
collect_references (tok ∷ toks) =
    let r = reference_of (split_n comma tok 3) in
    let out = collect_references toks in if r.identifier == [] then out else r ∷ out

unfoldable pub parse_references : Text → List Reference
parse_references s = collect_references (fields s)

-- The map `capCategory`; `none` is a missing key.
unfoldable pub cap_category : Text → Option Text
cap_category c =
    if c == text "Fire"
    then some (text "fire")
    else if c == text "Met"
    then some (text "weather")
    else if c == text "Geo"
    then some (text "earthquake")
    else if c == text "Security"
    then some (text "security")
    else if c == text "Safety"
    then some (text "security")
    else if c == text "Health"
    then some (text "system")
    else if c == text "Infra"
    then some (text "system")
    else if c == text "Env"
    then some (text "weather")
    else none

unfoldable pub rank : Text → ℕ
unfolding severity_rank
rank s = severity_rank s

unfoldable pub first_non_empty : List Text → Text
first_non_empty [] = []
first_non_empty (v ∷ vals) =
    let rest = first_non_empty vals in if trim_space v == [] then rest else v

-- The cases of the `switch` in order; the last two give the same.
unfoldable pub collapse_severity : Text → Text → Text → Text
collapse_severity urgency severity certainty =
    let immediate = urgency == text "Immediate" in
    let grave = severity == text "Extreme" || severity == text "Severe" in
    if certainty == text "Unlikely"
    then notice
    else if immediate && grave && (certainty == text "Observed" || certainty == text "Likely")
    then emergency
    else if immediate && grave
    then critical
    else if immediate && severity == text "Moderate"
    then critical
    else if urgency == text "Expected" || urgency == text "Future" || urgency == []
    then notice
    else if severity == text "Moderate"
    then warning
    else warning

unfoldable pub response_action : Text → Text → Text
response_action rt instruction =
    if rt == text "Shelter"
    then text "就地避险 / Shelter in place"
    else if rt == text "Evacuate"
    then text "立即撤离 / Evacuate now"
    else if rt == text "Execute"
    then text "执行预案 / Execute the plan"
    else if rt == text "Prepare"
    then text "做好准备 / Prepare"
    else if rt == text "Avoid"
    then text "避开危险区域 / Avoid the area"
    else if rt == text "AllClear"
    then text "警报解除 / All clear"
    else if rt == text "Monitor" || rt == text "Assess"
    then text "持续关注 / Monitor"
    else trim_space instruction

unfoldable pub fallback_ttl : Text → ℕ
fallback_ttl severity = if severity == emergency || severity == critical then 120 else 600

-- Whole seconds until `t`, 0 if it is past; time.Sub saturates at the largest int64.
unfoldable pub seconds_until : ℕ → ℕ → ℕ
seconds_until t now = min (t - now) (2 ^ 63 - 1) / 1_000_000_000

-- The severity of a document's first info block, held down for a test.
unfoldable pub gated_severity : Bool → Info → Text
gated_severity is_test i =
    let severity = collapse_severity i.urgency i.severity i.certainty in
    if is_test && ltb (rank warning) (rank severity) then warning else severity

unfoldable pub body_of : Info → Text
body_of i =
    let body = trim_space i.description in
    if i.instruction == []
    then body
    else if body == []
    then i.instruction
    else body ++ text "  " ++ i.instruction

-- What `MapToAlert` knows before it looks at the info blocks.
unfoldable pub blank : Document → Mapped
blank d = record {
  identifier = d.identifier;
  msg_type = first_non_empty (d.msg_type ∷ text "Alert" ∷ []);
  is_test = not (d.status == []) && not (d.status == text "Actual");
  category = text "custom";
  severity = notice;
  title = [];
  body = [];
  action = [];
  ttl = 0;
  references = d.references;
}

-- time.Parse(time.RFC3339, s); `none` is a parse error.
module _ (parse_time : Text → Option ℕ) where
  unfoldable pub ttl_from : Text → ℕ → Text → ℕ
  ttl_from expires now severity =
      if not (expires == [])
      then elim (parse_time expires) [
        | none ↦ fallback_ttl severity
        | some t ↦
            if ltb 0 (seconds_until t now) then seconds_until t now else fallback_ttl severity
      ]
      else fallback_ttl severity

  unfoldable pub map_info : Mapped → Info → ℕ → Mapped
  map_info m i now =
      let severity = gated_severity m.is_test i in
      record m {
        category = elim (cap_category i.category) [ none ↦ m.category | some c ↦ c ];
        severity = severity;
        title = first_non_empty (i.headline ∷ i.event ∷ text "Alert" ∷ []);
        body = body_of i;
        action = response_action i.response_type i.instruction;
        ttl = ttl_from i.expires now severity;
      }

  -- The part after `m` is built: with no info block the identifier is the title.
  unfoldable pub fill : Document → Mapped → List Info → ℕ → Mapped
  fill d m [] now = record m { title = first_non_empty (d.identifier ∷ text "Alert" ∷ []) }
  fill d m (i ∷ _) now = map_info m i now

  unfoldable pub map_to_alert : Document → ℕ → Mapped
  map_to_alert d now = fill d (blank d) d.info now
