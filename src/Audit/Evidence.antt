-- ===== src/Audit/Evidence.antt =====
-- What an auditor who kept only the last hash can tell (audit.go).
use aleart_hub.Base.{
  ◌≡◌, ◌≢◌, ◌∙◌, sym, Bool-cases, ◌⊎◌, inl, inr, List, [], ◌∷◌, arith, text_eqb, text_eqb_iff, Text,
  length,
}
use aleart_hub.Audit.{
  AuditEntry, AuditStore, intact, audit_hash, canonical_audit, verify_audit_chain,
}
use aleart_hub.Audit.Canonical.{SameEntry, canonical_audit-injective}
use aleart_hub.Audit.Chain.{Chained, end_hash, verify_audit_chain_lem}

-- Two different texts with one hash.
abbrev pub Collision : (Text → Text) → Type 0
Collision sha256_hex = (m : Text) × (n : Text) × (m ≢ n) × (sha256_hex m ≡ sha256_hex n)

-- The rows agree one by one.
abbrev pub SameEntries : List AuditEntry → List AuditEntry → Type 0
SameEntries [] [] = Unit
SameEntries [] (f ∷ fs) = ⊥
SameEntries (e ∷ es) [] = ⊥
SameEntries (e ∷ es) (f ∷ fs) = SameEntry e f × SameEntries es fs

module _ (sha256_hex : Text → Text) where
  one_row :
      (e f : AuditEntry) (p q : Text)
      → audit_hash sha256_hex e p ≡ audit_hash sha256_hex f q
      → Collision sha256_hex ⊎ ((p ≡ q) × SameEntry e f)
  unfolding audit_hash
  one_row e f p q h = elim (Bool-cases (text_eqb (canonical_audit e p) (canonical_audit f q))) [
    | inl same ↦ inr (
        canonical_audit-injective e f p q
          ((text_eqb_iff (canonical_audit e p) (canonical_audit f q)).0 same))
    | inr differ ↦ inl (
      canonical_audit e p,
      canonical_audit f q,
      λ same. cc (differ, (text_eqb_iff (canonical_audit e p) (canonical_audit f q)).1 same),
      h,
    )
  ]

  chains_agree :
      (p q : Text) (es fs : List AuditEntry)
      → length es ≡ length fs
      → Chained sha256_hex p es
      → Chained sha256_hex q fs
      → end_hash sha256_hex p es ≡ end_hash sha256_hex q fs
      → Collision sha256_hex ⊎ ((p ≡ q) × SameEntries es fs)
  chains_agree p q [] [] n h k e = inr (e, tt)
  chains_agree p q [] (f ∷ fs) n h k e = absurd (omega arith)
  chains_agree p q (x ∷ es) [] n h k e = absurd (omega arith)
  chains_agree p q (x ∷ es) (f ∷ fs) n h k e =
      elim (chains_agree x.hash f.hash es fs (omega arith) h.2 k.2 e) [
        | inl collision ↦ inl collision
        | inr (heads, rest) ↦ elim (one_row x f p q (sym h.1 ∙ heads ∙ k.1)) [
          | inl collision ↦ inl collision
          | inr (starts, same) ↦ inr (starts, (same, rest))
        ]
      ]

  -- Two logs that both verify, with as many rows and the same last hash, hold the same rows in
  -- the same order and start from the same anchor, or else they exhibit two texts with one
  -- SHA-256: whoever keeps the count and the last hash detects every edit, insertion and removal.
  pub tamper_evident :
      (s t : AuditStore)
      → length s.log ≡ length t.log
      → verify_audit_chain sha256_hex s ≡ intact (length s.log)
      → verify_audit_chain sha256_hex t ≡ intact (length t.log)
      → end_hash sha256_hex s.anchor s.log ≡ end_hash sha256_hex t.anchor t.log
      → Collision sha256_hex ⊎ ((s.anchor ≡ t.anchor) × SameEntries s.log t.log)
  tamper_evident s t n h k e =
      chains_agree s.anchor t.anchor s.log t.log n ((verify_audit_chain_lem sha256_hex s).0 h)
        ((verify_audit_chain_lem sha256_hex t).0 k) e
