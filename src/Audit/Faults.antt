-- ===== src/Audit/Faults.antt =====
-- Two ways in which a prune breaks a chain that nobody tampered with (audit_prune.go): rows whose
-- times run backwards, and a stop between the DELETE and the new anchor.
use aleart_hub.Base.{
  some, none, ℕ, ◌≤◌, ◌≡◌, ◌≢◌, refl, subst, ◌∙◌, sym, false, List, [], ◌∷◌, ◌++◌, arith, Text,
  length,
}
use aleart_hub.Audit.{
  AuditEntry, AuditStore, deleted, anchored, head_hash, with_defaults, intact, linked, append_audit,
  verify_audit_chain, is_old, prune_entry, prune_steps, prune_rows, prune_audit, counted,
}
use aleart_hub.Audit.Chain.{Chained, IsIntact, verify_sound}
use aleart_hub.Audit.Prune.{
  IsTimed, old, recent, pruned, prune_rows_lem, pruned-IsIntact, row-recent,
}

module _ (sha256_hex : Text → Text) where
  -- A non-empty chain starts from one hash only.
  start_unique :
      (p q : Text) (e : AuditEntry) (es : List AuditEntry)
      → Chained sha256_hex p (e ∷ es)
      → e.prev_hash ≡ q
      → p ≡ q
  start_unique p q e es h k = sym h.0 ∙ k

  broken :
      (s : AuditStore) (q : Text) (e : AuditEntry) (es : List AuditEntry) (m : ℕ)
      → s.log ≡ e ∷ es
      → e.prev_hash ≡ q
      → s.anchor ≢ q
      → verify_audit_chain sha256_hex s ≢ intact m
  unfolding verify_audit_chain
  broken s q e es m l k ne v =
      let (chained, _) = verify_sound sha256_hex s.anchor 0 m s.log v in
      ne (start_unique s.anchor q e es (subst (Chained sha256_hex s.anchor) l chained) k)

  module _ (format_time : ℕ → Text) (now before : ℕ) (actor : Text) where
    -- The chain is intact, its first row is recent and a later one is old, which a clock that was
    -- set back leaves behind. The prune succeeds, and no verification of what it leaves reports
    -- an intact chain, unless the removed rows end in the very hash that was the anchor.
    pub prune_audit_backwards :
        (s : AuditStore) (k : AuditEntry) (ks : List AuditEntry) (o : AuditEntry)
        (os : List AuditEntry) (m : ℕ)
        → IsIntact sha256_hex s
        → s.log ≡ k ∷ ks
        → is_old before k ≡ false
        → old before s.log ≡ o ∷ os
        → head_hash (o ∷ os) ≢ s.anchor
        → (s' : AuditStore) × (prune_audit sha256_hex format_time now before actor anchored s
            ≡ (s', some (length (o ∷ os))))
          × (verify_audit_chain sha256_hex s' ≢ intact m)
    unfolding prune_audit
    prune_audit_backwards s k ks o os m h l kept e ne = (
      pruned sha256_hex format_time now before actor s o os,
      rw e (prune_rows_lem sha256_hex format_time now before actor s o os),
      broken (pruned sha256_hex format_time now before actor s o os) s.anchor k
          (recent before (ks ++ row ∷ [])) m first (first_link h.chained l) ne,
    )
      where
        row : AuditEntry
        row =
            linked sha256_hex s
              (with_defaults now (prune_entry format_time before actor (head_hash (o ∷ os))))

        first : recent before (s.log ++ row ∷ []) ≡ k ∷ recent before (ks ++ row ∷ [])
        first = rw l (ground arith)

        first_link : Chained sha256_hex s.anchor s.log → s.log ≡ k ∷ ks → k.prev_hash ≡ s.anchor
        first_link c e = (subst (Chained sha256_hex s.anchor) e c).0

    -- What a prune leaves that stops between the DELETE and the new anchor.
    abbrev pub stopped : AuditStore → AuditEntry → List AuditEntry → AuditStore
    stopped s o os = record (pruned sha256_hex format_time now before actor s o os) {
      anchor = s.anchor;
    }

    stopped_lem :
        (s : AuditStore) (o : AuditEntry) (os : List AuditEntry)
        → prune_rows sha256_hex format_time (o ∷ os) now before actor deleted s
          ≡ (stopped s o os, none)
    unfolding prune_rows prune_steps counted append_audit prune_entry
    stopped_lem s o os = refl

    unanchored :
        (s : AuditStore) (p : Text) (m : ℕ) (es : List AuditEntry)
        → es ≢ []
        → s.log ≡ es
        → Chained sha256_hex p es
        → s.anchor ≢ p
        → verify_audit_chain sha256_hex s ≢ intact m
    unanchored s p m [] ne l c a = absurd (ne refl)
    unanchored s p m (e ∷ es) ne l c a = broken s p e es m l c.0 a

    append-ne-nil : (es : List AuditEntry) (f : AuditEntry) → es ++ f ∷ [] ≢ []
    append-ne-nil [] f n = cc
    append-ne-nil (x ∷ es) f n = cc

    -- The chain is intact and in time order, there are old rows, and the last of them does not
    -- hash to the old anchor. If the server stops after the DELETE and before the anchor is
    -- written, no later verification reports an intact chain, though nobody edited a row.
    pub prune_audit_stopped :
        (s : AuditStore) (o : AuditEntry) (os : List AuditEntry) (m : ℕ)
        → IsIntact sha256_hex s
        → IsTimed s.log
        → before ≤ now
        → old before s.log ≡ o ∷ os
        → s.anchor ≢ head_hash (o ∷ os)
        → (s' : AuditStore) × (prune_audit sha256_hex format_time now before actor deleted s
            ≡ (s', none))
          × (verify_audit_chain sha256_hex s' ≢ intact m)
    unfolding prune_audit
    prune_audit_stopped s o os m h t le e ne =
        let safe = pruned-IsIntact sha256_hex format_time now before actor s o os h t le e in
        let same = row-recent sha256_hex format_time now before actor s (head_hash (o ∷ os)) le in
        (
          stopped s o os,
          rw e (stopped_lem s o os),
          unanchored (stopped s o os) (head_hash (o ∷ os)) m (stopped s o os).log
              (λ empty. append-ne-nil (recent before s.log) _ (sym same ∙ empty)) refl safe.chained
              ne,
        )
