-- ===== src/Alert/Canonical.antt =====
-- The signed bytes of an alert (alert.go, Canonical) determine every signed field.
use aleart_hub.Base.{
  ℕ, ◌≡◌, refl, arith, Text, newline, IsOneLine, IsFramed, join-injective, itoa, itoa-injective,
  itoa-ne,
}
use aleart_hub.Alert.{Alert, signed_parts, canonical}

-- Every signed string but the last is one line. `cancels` comes last, and may be anything.
pub record IsSignable (a : Alert) : Type 0 where
  pub id : IsOneLine a.id
  pub type : IsOneLine a.type
  pub category : IsOneLine a.category
  pub severity : IsOneLine a.severity
  pub title : IsOneLine a.title
  pub body : IsOneLine a.body
  pub action : IsOneLine a.action
  pub source : IsOneLine a.source
  pub nonce : IsOneLine a.nonce

-- The signed content of two alerts agrees: the numbers, and the strings up to normalisation.
pub record SameSigned (nfc : Text → Text) (a b : Alert) : Type 0 where
  pub schema_version : a.schema_version ≡ b.schema_version
  pub id : nfc a.id ≡ nfc b.id
  pub type : nfc a.type ≡ nfc b.type
  pub category : nfc a.category ≡ nfc b.category
  pub severity : nfc a.severity ≡ nfc b.severity
  pub title : nfc a.title ≡ nfc b.title
  pub body : nfc a.body ≡ nfc b.body
  pub action : nfc a.action ≡ nfc b.action
  pub source : nfc a.source ≡ nfc b.source
  pub issued_at : a.issued_at ≡ b.issued_at
  pub ttl : a.ttl ≡ b.ttl
  pub nonce : nfc a.nonce ≡ nfc b.nonce
  pub cancels : nfc a.cancels ≡ nfc b.cancels

pub itoa-IsOneLine : (n : ℕ) → IsOneLine (itoa n)
itoa-IsOneLine n = itoa-ne newline n (λ c h. omega arith)

-- Normalisation makes no line feed, as NFC composes and reorders no control character.
abbrev pub KeepsLines : (Text → Text) → Type 0
KeepsLines nfc = (s : Text) → IsOneLine s → IsOneLine (nfc s)

module _ (nfc : Text → Text) (keeps : KeepsLines nfc) where
  pub signed_parts-IsFramed : (a : Alert) → IsSignable a → IsFramed (signed_parts nfc a)
  unfolding signed_parts
  signed_parts-IsFramed a h = (
    itoa-IsOneLine a.schema_version,
    (
      keeps a.id h.id,
      (
        keeps a.type h.type,
        (
          keeps a.category h.category,
          (
            keeps a.severity h.severity,
            (
              keeps a.title h.title,
              (
                keeps a.body h.body,
                (
                  keeps a.action h.action,
                  (
                    keeps a.source h.source,
                    (
                      itoa-IsOneLine a.issued_at,
                      (itoa-IsOneLine a.ttl, (keeps a.nonce h.nonce, tt)),
                    ),
                  ),
                ),
              ),
            ),
          ),
        ),
      ),
    ),
  )

  parts_SameSigned : (a b : Alert) → signed_parts nfc a ≡ signed_parts nfc b → SameSigned nfc a b
  unfolding signed_parts
  parts_SameSigned a b e = record {
    schema_version = itoa-injective a.schema_version b.schema_version (cc);
    id = cc;
    type = cc;
    category = cc;
    severity = cc;
    title = cc;
    body = cc;
    action = cc;
    source = cc;
    issued_at = itoa-injective a.issued_at b.issued_at (cc);
    ttl = itoa-injective a.ttl b.ttl (cc);
    nonce = cc;
    cancels = cc;
  }

  -- Two alerts whose strings before `cancels` are one line each, and whose canonical bytes are
  -- equal, agree in all thirteen signed fields: no text can be moved from one field to another
  -- under the same signature. `cancels` may hold anything.
  pub canonical-injective :
      (a b : Alert)
      → IsSignable a
      → IsSignable b
      → canonical nfc a ≡ canonical nfc b
      → SameSigned nfc a b
  unfolding canonical
  canonical-injective a b h k e = parts_SameSigned a b (
      join-injective (signed_parts nfc a) (signed_parts nfc b) refl (signed_parts-IsFramed a h)
        (signed_parts-IsFramed b k) e)
