-- ===== src/Audit/Canonical.antt =====
-- The hashed bytes of an audit row determine every hashed field (audit.go, canonicalAudit).
use aleart_hub.Base.{
  ℕ, ◌≡◌, ◌≢◌, refl, ◌∙◌, sym, List, [], ◌∷◌, ◌++◌, append_assoc, arith, Text, All, length, itoa,
  itoa-injective, itoa-ne, split_inj,
}
use aleart_hub.Audit.{AuditEntry, colon, bar, frame, frames, audit_fields, canonical_audit}

append_inj : (s t u v : Text) → length s ≡ length t → s ++ u ≡ t ++ v → (s ≡ t) × (u ≡ v)
append_inj [] [] u v n e = (refl, e)
append_inj [] (b ∷ t) u v n e = absurd (omega arith)
append_inj (a ∷ s) [] u v n e = absurd (omega arith)
append_inj (a ∷ s) (b ∷ t) u v n e =
    let (same, rest) = append_inj s t u v (omega arith) (cc) in (cc, rest)

itoa-colon : (n : ℕ) → All (λ c. c ≢ colon) (itoa n)
itoa-colon n = itoa-ne colon n (λ c h. omega arith)

frame_unfold : (s t : Text) → frame s ++ t ≡ itoa (length s) ++ colon ∷ (s ++ bar ∷ t)
unfolding frame
frame_unfold s t = simp append_assoc

-- A frame can be read off the front of a text in one way.
frame_inj : (s t u v : Text) → frame s ++ u ≡ frame t ++ v → (s ≡ t) × (u ≡ v)
frame_inj s t u v e =
    let (sizes, rest) =
      split_inj colon (itoa (length s)) (itoa (length t)) (s ++ bar ∷ u) (t ++ bar ∷ v)
        (itoa-colon (length s)) (itoa-colon (length t))
        (sym (frame_unfold s u) ∙ e ∙ frame_unfold t v) in
    let (same, tails) =
      append_inj s t (bar ∷ u) (bar ∷ v) (itoa-injective (length s) (length t) sizes) rest in
    (same, cc)

frames-injective : (ss ts : List Text) → length ss ≡ length ts → frames ss ≡ frames ts → ss ≡ ts
unfolding frames
frames-injective [] [] n e = refl
frames-injective [] (t ∷ ts) n e = absurd (omega arith)
frames-injective (s ∷ ss) [] n e = absurd (omega arith)
frames-injective (s ∷ ss) (t ∷ ts) n e =
    let (same, rest) = frame_inj s t (frames ss) (frames ts) e in
    let others = frames-injective ss ts (omega arith) rest in cc

-- Two rows agree in all that the chain protects: everything but the id and the hashes.
pub record SameEntry (e f : AuditEntry) : Type 0 where
  pub org_id : e.org_id ≡ f.org_id
  pub at : e.at ≡ f.at
  pub actor_type : e.actor_type ≡ f.actor_type
  pub actor_id : e.actor_id ≡ f.actor_id
  pub actor_name : e.actor_name ≡ f.actor_name
  pub action : e.action ≡ f.action
  pub target_type : e.target_type ≡ f.target_type
  pub target_id : e.target_id ≡ f.target_id
  pub detail : e.detail ≡ f.detail
  pub ip : e.ip ≡ f.ip

fields_SameEntry :
    (e f : AuditEntry) (p q : Text) → audit_fields e p ≡ audit_fields f q → (p ≡ q) × SameEntry e f
unfolding audit_fields
fields_SameEntry e f p q h = (
  cc,
  record {
    org_id = itoa-injective e.org_id f.org_id (cc);
    at = itoa-injective e.at f.at (cc);
    actor_type = cc;
    actor_id = itoa-injective e.actor_id f.actor_id (cc);
    actor_name = cc;
    action = cc;
    target_type = cc;
    target_id = cc;
    detail = cc;
    ip = cc;
  },
)

-- Rows with equal hashed bytes, whatever they hold, have the same predecessor hash and agree in
-- every field: no bytes can be moved between fields.
pub canonical_audit-injective :
    (e f : AuditEntry) (p q : Text)
    → canonical_audit e p ≡ canonical_audit f q
    → (p ≡ q) × SameEntry e f
unfolding canonical_audit
canonical_audit-injective e f p q h =
    fields_SameEntry e f p q
      (frames-injective (audit_fields e p) (audit_fields f q) (unfold audit_fields in refl) h)
