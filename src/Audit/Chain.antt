-- ===== src/Audit/Chain.antt =====
-- VerifyAuditChain against a chain predicate, and what AppendAudit keeps (audit.go).
use aleart_hub.Base.{
  ℕ, ◌+◌, ◌≡◌, ◌≢◌, refl, ap, ◌∙◌, sym, ◌↔◌, Bool-cases, inl, inr, List, [], ◌∷◌, ◌++◌, arith,
  nat_eq, text_eq, text_eqb, text_eqb_iff, Text, length, length-append,
}
use aleart_hub.Audit.{
  AuditEntry, AuditStore, ok, err, action_required, head_hash, with_defaults, intact, audit_hash,
  canonical_audit, audit_fields, linked, append_audit, verify_from, verify_audit_chain,
}

module _ (sha256_hex : Text → Text) where
  -- Each row names the hash before it and carries the hash of its own content.
  abbrev pub Chained : Text → List AuditEntry → Type 0
  Chained prev [] = Unit
  Chained prev (e ∷ es) =
      (e.prev_hash ≡ prev) × (e.hash ≡ audit_hash sha256_hex e prev) × Chained e.hash es

  pub verify_sound :
      (prev : Text) (n m : ℕ) (es : List AuditEntry)
      → verify_from sha256_hex prev n es ≡ intact m
      → Chained prev es × (m ≡ n + length es)
  unfolding verify_from
  verify_sound prev n m [] h = (tt, ground arith)
  verify_sound prev n m (e ∷ es) h = elim (Bool-cases (text_eqb e.prev_hash prev)) [
    | inr broken ↦ absurd (ground arith)
    | inl joined ↦ elim (Bool-cases (text_eqb (audit_hash sha256_hex e prev) e.hash)) [
      | inr edited ↦ absurd (ground arith)
      | inl faithful ↦
          let (chained, count) = verify_sound e.hash (n + 1) m es (ground arith) in
          (
            (
              (text_eqb_iff e.prev_hash prev).0 joined,
              sym ((text_eqb_iff (audit_hash sha256_hex e prev) e.hash).0 faithful),
              chained,
            ),
            omega arith,
          )
    ]
  ]

  verify_complete :
      (prev : Text) (n : ℕ) (es : List AuditEntry)
      → Chained prev es
      → verify_from sha256_hex prev n es ≡ intact (n + length es)
  unfolding verify_from
  verify_complete prev n [] h = ground arith
  verify_complete prev n (e ∷ es) h = ground (
    arith,
    text_eqb_iff e.prev_hash prev,
    text_eqb_iff (audit_hash sha256_hex e prev) e.hash,
    verify_complete e.hash (n + 1) es h.2,
  )

  -- Where the database is read, `VerifyAuditChain` reports an intact chain, with the number of rows,
  -- exactly when from the anchor on each row names the hash before it and carries the hash of its
  -- own content; this also holds of a log whose last rows were removed.
  pub verify_audit_chain_lem :
      (s : AuditStore)
      → (verify_audit_chain sha256_hex s ≡ intact (length s.log)) ↔ Chained s.anchor s.log
  unfolding verify_audit_chain
  verify_audit_chain_lem s = (
    λ h. (verify_sound s.anchor 0 (length s.log) s.log h).0,
    λ h. verify_complete s.anchor 0 s.log h ∙ ap intact (omega arith),
  )

  -- The hash that the next row links to.
  abbrev pub end_hash : Text → List AuditEntry → Text
  end_hash prev [] = prev
  end_hash prev (e ∷ es) = end_hash e.hash es

  end_hash-head_hash :
      (prev : Text) (e : AuditEntry) (es : List AuditEntry)
      → end_hash prev (e ∷ es) ≡ head_hash (e ∷ es)
  unfolding head_hash
  end_hash-head_hash prev e [] = refl
  end_hash-head_hash prev e (f ∷ es) = end_hash-head_hash e.hash f es

  pub Chained-append :
      (prev : Text) (es fs : List AuditEntry)
      → Chained prev (es ++ fs) ↔ (Chained prev es × Chained (end_hash prev es) fs)
  Chained-append prev [] fs = ((λ h. (tt, h)), (λ h. h.1))
  Chained-append prev (e ∷ es) fs =
      let (to, from) = Chained-append e.hash es fs in
      (λ h. ((h.0, h.1, (to h.2).0), (to h.2).1), λ h. (h.0.0, h.0.1, from (h.0.2, h.1)))

  -- What holds between two operations: the chain is intact, and an empty log has no anchor.
  pub record IsIntact (s : AuditStore) : Type 0 where
    pub chained : Chained s.anchor s.log
    pub fresh : s.log ≡ [] → s.anchor ≡ []

  pub end_hash-head :
      (prev : Text) (es : List AuditEntry) → (es ≡ [] → prev ≡ []) → end_hash prev es ≡ head_hash es
  end_hash-head prev [] h = unfold head_hash in h refl
  end_hash-head prev (e ∷ es) h = end_hash-head_hash prev e es

  linked-Chained :
      (s : AuditStore) (e : AuditEntry) → Chained (head_hash s.log) (linked sha256_hex s e ∷ [])
  unfolding linked audit_hash canonical_audit audit_fields
  linked-Chained s e = (refl, refl, tt)

  -- The store after a row was appended.
  abbrev pub appended : ℕ → AuditStore → AuditEntry → AuditStore
  appended now s e = record s {
    log = s.log ++ linked sha256_hex s (with_defaults now e) ∷ [];
    next_id = s.next_id + 1;
  }

  pub appended-IsIntact :
      (now : ℕ) (s : AuditStore) (e : AuditEntry) → IsIntact s → IsIntact (appended now s e)
  appended-IsIntact now s e h = record {
    chained = (Chained-append s.anchor s.log (linked sha256_hex s (with_defaults now e) ∷ [])).1 (
      h.chained,
      rw (end_hash-head s.anchor s.log h.fresh) (linked-Chained s (with_defaults now e)),
    );
    fresh = λ empty. absurd (never s.log _ empty);
  }
    where
      never : (es : List AuditEntry) (f : AuditEntry) → es ++ f ∷ [] ≢ []
      never [] f n = cc
      never (x ∷ es) f n = cc

  -- A row with an action is always appended, behind the others, and the chain stays intact. A row
  -- without one is refused, and then nothing is stored.
  pub append_audit-IsIntact :
      (now : ℕ) (s : AuditStore) (e : AuditEntry)
      → IsIntact s
      → (e.action ≢ []
          → (append_audit sha256_hex now s e ≡ ok (appended now s e))
            × IsIntact (appended now s e)
            × (verify_audit_chain sha256_hex (appended now s e) ≡ intact (length s.log + 1)))
        × (e.action ≡ [] → append_audit sha256_hex now s e ≡ err action_required)
  unfolding append_audit
  append_audit-IsIntact now s e h = (
    λ named. (
      ground (arith, text_eqb_iff e.action []),
      appended-IsIntact now s e h,
      (verify_audit_chain_lem (appended now s e)).1 (appended-IsIntact now s e h).chained
          ∙ ap intact
              (length-append s.log (linked sha256_hex s (with_defaults now e) ∷ []) ∙ omega arith),
    ),
    λ unnamed. ground (arith, text_eqb_iff e.action []),
  )
