-- ===== src/Alert.antt =====
-- server/internal/alert/alert.go and heartbeat.go: the signed envelope, its canonical bytes, the
-- publish-time rules and the heartbeat. NFC (golang.org/x/text), Ed25519 and base64 are
-- parameters. An `int64` here holds a time or a duration in seconds, which is never negative.
pub mod Validate
mod Canonical
pub mod Beat
pub mod Signature
pub mod Tests
use aleart_hub.Base.{
  ℕ, ◌≡◌, Bool, true, false, ◌&&◌, ◌||◌, Option, none, some, List, [], ◌∷◌, if◌then◌else◌, ◌==◌,
  nat_eq, text_eq, Text, text, newline, has_byte, any, join, itoa, length,
}

abbrev pub schema_version : ℕ
schema_version = 1

pub record Alert : Type 0 where
  pub schema_version : ℕ
  pub id : Text
  pub type : Text
  pub category : Text
  pub severity : Text
  pub title : Text
  pub body : Text
  pub action : Text
  pub source : Text
  pub issued_at : ℕ
  pub ttl : ℕ
  pub nonce : Text
  pub cancels : Text
  pub sig : Text

abbrev pub notice : Text
notice = text "notice"

abbrev pub warning : Text
warning = text "warning"

abbrev pub critical : Text
critical = text "critical"

abbrev pub emergency : Text
emergency = text "emergency"

-- The map `severityRank`: `none` is a missing key.
unfoldable pub severity_rank? : Text → Option ℕ
severity_rank? s =
    if s == notice
    then some 0
    else if s == warning
    then some 1
    else if s == critical
    then some 2
    else if s == emergency
    then some 3
    else none

-- Go's map index: a missing key reads as the zero value.
unfoldable pub severity_rank : Text → ℕ
unfolding severity_rank?
severity_rank s = elim (severity_rank? s) [ none ↦ 0 | some r ↦ r ]

unfoldable pub valid_category : Text → Bool
valid_category c =
    c == text "earthquake"
    || c == text "fire"
    || c == text "weather"
    || c == text "system"
    || c == text "security"
    || c == text "custom"

pub data InputError : Type 0 where
  bad_severity bad_category bad_newline : InputError

unfoldable pub breaks_line : Text → Bool
breaks_line s = has_byte newline s || has_byte 13 s

-- `none` is Go's nil error.
unfoldable pub validate_input : Text → Text → Text → Text → Text → Text → Option InputError
validate_input severity category title body action source = elim (severity_rank? severity) [
  | none ↦ some bad_severity
  | some _ ↦
      if valid_category category
      then if any breaks_line (title ∷ body ∷ action ∷ source ∷ []) then some bad_newline else none
      else some bad_category
]

unfoldable pub default_ttl : Text → ℕ
default_ttl severity = if severity == emergency || severity == critical then 120 else 600

unfoldable pub default_action : Text → Text
default_action category =
    if category == text "earthquake"
    then text "趴下，掩护，抓牢"
    else if category == text "fire"
    then text "立即撤离，不要乘电梯"
    else if category == text "system"
    then text "确认并检查节点"
    else if category == text "security"
    then text "核实并确认"
    else []

-- The thirteen signed fields, in the order that SPEC §3.2 locks.
unfoldable pub signed_parts : (Text → Text) → Alert → List Text
signed_parts nfc a =
    itoa a.schema_version
    ∷ nfc a.id
    ∷ nfc a.type
    ∷ nfc a.category
    ∷ nfc a.severity
    ∷ nfc a.title
    ∷ nfc a.body
    ∷ nfc a.action
    ∷ nfc a.source
    ∷ itoa a.issued_at
    ∷ itoa a.ttl
    ∷ nfc a.nonce
    ∷ nfc a.cancels
    ∷ []

unfoldable pub canonical : (Text → Text) → Alert → Text
unfolding signed_parts
canonical nfc a = join newline (signed_parts nfc a)

pub record Heartbeat : Type 0 where
  pub schema_version : ℕ
  pub type : Text
  pub seq : ℕ
  pub issued_at : ℕ
  pub interval : ℕ
  pub active_count : ℕ
  pub health : Text
  pub sig : Text

abbrev pub health_ok : Text
health_ok = text "ok"

abbrev pub health_degraded : Text
health_degraded = text "degraded"

unfoldable pub heartbeat_parts : Heartbeat → List Text
heartbeat_parts h =
    text "hb2"
    ∷ itoa h.seq
    ∷ itoa h.issued_at
    ∷ itoa h.interval
    ∷ itoa h.active_count
    ∷ h.health
    ∷ []

unfoldable pub canonical_heartbeat : Heartbeat → Text
unfolding heartbeat_parts
canonical_heartbeat h = join newline (heartbeat_parts h)

-- Ed25519 (crypto/ed25519) with base64url without padding (encoding/base64). `none` is a decoding
-- error.
pub record Signer : Type 1 where
  pub PrivateKey : Type 0
  pub PublicKey : Type 0
  pub public : PrivateKey → PublicKey
  pub sign_bytes : PrivateKey → Text → Text
  pub verify_bytes : PublicKey → Text → Text → Bool
  pub encode : Text → Text
  pub decode : Text → Option Text

abbrev pub signature_size : ℕ
signature_size = 64

module _ (signer : Signer) where
  open signer use {PrivateKey, PublicKey, sign_bytes, verify_bytes, encode, decode}

  unfoldable pub sign : (Text → Text) → PrivateKey → Alert → Alert
  sign nfc priv a = record a { sig = encode (sign_bytes priv (canonical nfc a)) }

  -- The check that both message kinds share: decode, length, Ed25519.
  unfoldable pub check_signature : PublicKey → Text → Text → Bool
  check_signature pub_key message sig = elim (decode sig) [
    | none ↦ false
    | some bytes ↦
        if length bytes == signature_size then verify_bytes pub_key message bytes else false
  ]

  unfoldable pub verify : (Text → Text) → PublicKey → Alert → Bool
  unfolding check_signature
  verify nfc pub_key a = check_signature pub_key (canonical nfc a) a.sig

  unfoldable pub sign_heartbeat : PrivateKey → Heartbeat → Heartbeat
  sign_heartbeat priv h = record h { sig = encode (sign_bytes priv (canonical_heartbeat h)) }

  unfoldable pub verify_heartbeat : PublicKey → Heartbeat → Bool
  unfolding check_signature
  verify_heartbeat pub_key h = check_signature pub_key (canonical_heartbeat h) h.sig
