-- ===== src/Audit/Prune.antt =====
-- PruneAudit keeps a chain that verifies, if times never run backwards and it is not interrupted
-- (audit_prune.go).
use aleart_hub.Base.{
  some, text, if◌then◌else◌, ◌==◌, nat_eq, ℕ, ◌≤◌, ◌≡◌, ◌≢◌, refl, ap, subst, ◌∙◌, sym, Bool-cases,
  not, inl, inr, List, [], ◌∷◌, ◌++◌, append_assoc, append-nil, arith, ltb, text_eq, Text, All,
  length, select, select-append,
}
use aleart_hub.Audit.{
  AuditEntry, AuditStore, anchored, head_hash, with_defaults, intact, linked, append_audit,
  verify_audit_chain, is_old, prune_entry, prune_steps, counted, prune_rows, prune_audit,
}
use aleart_hub.Audit.Chain.{
  Chained, Chained-append, end_hash-head, IsIntact, appended, appended-IsIntact,
  verify_audit_chain_lem,
}

-- No row is older than one before it.
abbrev pub IsTimed : List AuditEntry → Type 0
IsTimed [] = Unit
IsTimed (e ∷ es) = All (λ f. e.at ≤ f.at) es × IsTimed es

abbrev pub old : ℕ → List AuditEntry → List AuditEntry
old before es = select (is_old before) es

abbrev pub recent : ℕ → List AuditEntry → List AuditEntry
recent before es = select (λ e. not (is_old before e)) es

none_old :
    (before : ℕ) (es : List AuditEntry)
    → All (λ f. before ≤ f.at) es
    → (old before es ≡ []) × (recent before es ≡ es)
unfolding is_old
none_old before [] h = (refl, refl)
none_old before (e ∷ es) h =
    let (gone, kept) = none_old before es h.1 in (ground arith, ground arith)

All-le : (a b : ℕ) (es : List AuditEntry) → a ≤ b → All (λ f. b ≤ f.at) es → All (λ f. a ≤ f.at) es
All-le a b [] h k = tt
All-le a b (e ∷ es) h k = (omega arith, All-le a b es h k.1)

-- The old rows of a log in time order are its first rows.
old-recent :
    (before : ℕ) (es : List AuditEntry) → IsTimed es → old before es ++ recent before es ≡ es
unfolding is_old
old-recent before [] h = refl
old-recent before (e ∷ es) h = elim (Bool-cases (ltb e.at before)) [
  | inl gone ↦ ground (arith, old-recent before es h.1)
  | inr kept ↦
      let (none', all') = none_old before es (All-le before e.at es (ground arith) h.0) in
      ground (arith, none', all')
]

recent-All : (before : ℕ) (es : List AuditEntry) → All (λ e. before ≤ e.at) (recent before es)
unfolding is_old
recent-All before [] = tt
recent-All before (e ∷ es) = elim (Bool-cases (ltb e.at before)) [
  | inl gone ↦ rw gone (recent-All before es)
  | inr kept ↦ rw kept (ground arith, recent-All before es)
]

module _ (sha256_hex : Text → Text) (format_time : ℕ → Text) (now before : ℕ) (actor : Text) where
  -- What a prune with something to remove leaves, if all its statements run.
  abbrev pub pruned : AuditStore → AuditEntry → List AuditEntry → AuditStore
  pruned s o os =
      let row = prune_entry format_time before actor (head_hash (o ∷ os)) in
      record (appended sha256_hex now s row) {
        log = recent before (appended sha256_hex now s row).log;
        anchor = head_hash (o ∷ os);
      }

  pub prune_rows_lem :
      (s : AuditStore) (o : AuditEntry) (os : List AuditEntry)
      → prune_rows sha256_hex format_time (o ∷ os) now before actor anchored s
        ≡ (pruned s o os, some (length (o ∷ os)))
  unfolding prune_rows prune_steps counted append_audit prune_entry
  prune_rows_lem s o os = refl

  pub row-recent :
      (s : AuditStore) (anchor : Text)
      → before ≤ now
      → let row =
          linked sha256_hex s (with_defaults now (prune_entry format_time before actor anchor)) in
        recent before (s.log ++ row ∷ []) ≡ recent before s.log ++ row ∷ []
  unfolding linked with_defaults prune_entry is_old
  row-recent s anchor h =
      select-append (λ e. not (is_old before e)) s.log _
      ∙ ap (λ (r : List AuditEntry). recent before s.log ++ r) (ground arith)

  pub pruned-IsIntact :
      (s : AuditStore) (o : AuditEntry) (os : List AuditEntry)
      → IsIntact sha256_hex s
      → IsTimed s.log
      → before ≤ now
      → old before s.log ≡ o ∷ os
      → IsIntact sha256_hex (pruned s o os)
  pruned-IsIntact s o os h t le e = record {
    chained =
        subst (Chained sha256_hex (head_hash (o ∷ os))) (sym (row-recent s (head_hash (o ∷ os)) le))
          tail;
    fresh = λ empty.
        absurd (never (recent before s.log) _ (sym (row-recent s (head_hash (o ∷ os)) le) ∙ empty));
  }
    where
      row : AuditEntry
      row =
          linked sha256_hex s
            (with_defaults now (prune_entry format_time before actor (head_hash (o ∷ os))))

      never : (es : List AuditEntry) (f : AuditEntry) → es ++ f ∷ [] ≢ []
      never [] f n = cc
      never (x ∷ es) f n = cc

      split : (o ∷ os) ++ recent before s.log ≡ s.log
      split =
          subst (λ (x : List AuditEntry). x ++ recent before s.log ≡ s.log) e
            (old-recent before s.log t)

      whole : Chained sha256_hex s.anchor (s.log ++ row ∷ [])
      whole =
          (appended-IsIntact sha256_hex now s
            (prune_entry format_time before actor (head_hash (o ∷ os))) h).chained

      regrouped : Chained sha256_hex s.anchor ((o ∷ os) ++ (recent before s.log ++ row ∷ []))
      regrouped =
          subst (Chained sha256_hex s.anchor)
            (append_assoc (o ∷ os) (recent before s.log) (row ∷ []))
            (subst (λ (l : List AuditEntry). Chained sha256_hex s.anchor (l ++ row ∷ []))
              (sym split) whole)

      tail : Chained sha256_hex (head_hash (o ∷ os)) (recent before s.log ++ row ∷ [])
      tail =
          subst (λ (p : Text). Chained sha256_hex p (recent before s.log ++ row ∷ []))
            (end_hash-head sha256_hex s.anchor (o ∷ os) (λ n. absurd (cc n)))
            ((Chained-append sha256_hex s.anchor (o ∷ os) (recent before s.log ++ row ∷ [])).0
              regrouped).1

  recorded_as :
      (s : AuditStore) (o : AuditEntry) (os : List AuditEntry)
      → let e =
          linked sha256_hex s
            (with_defaults now (prune_entry format_time before actor (head_hash (o ∷ os)))) in
        (e.action ≡ text "audit.prune") × (e.actor_name ≡ actor)
  unfolding linked with_defaults prune_entry
  recorded_as s o os = (refl, refl)

  -- In an intact log whose times never run backwards, a prune up to a moment that is not in the
  -- future, all of whose statements succeed, counts the rows that are older, removes them and keeps
  -- every other row in order; if there were older rows, one row with the action audit.prune and
  -- the name of the actor is behind them, and else nothing; and the chain that is left verifies.
  pub prune_audit-IsIntact :
      (s : AuditStore)
      → IsIntact sha256_hex s
      → IsTimed s.log
      → before ≤ now
      → (s' : AuditStore) × (added : List AuditEntry) × (prune_audit sha256_hex format_time now
            before actor anchored s
          ≡ (s', some (length (old before s.log))))
        × (s'.log ≡ recent before s.log ++ added)
        × (length added ≡ (if length (old before s.log) == 0 then 0 else 1))
        × All (λ e. (e.action ≡ text "audit.prune") × (e.actor_name ≡ actor)) added
        × IsIntact sha256_hex s'
        × (verify_audit_chain sha256_hex s' ≡ intact (length s'.log))
  unfolding prune_audit
  prune_audit-IsIntact s h t le = go (old before s.log) refl
    where
      go :
          (gone : List AuditEntry)
          → old before s.log ≡ gone
          → (s' : AuditStore) × (added : List AuditEntry) × (prune_rows sha256_hex format_time
                (old before s.log)
                now
                before
                actor
                anchored
                s
              ≡ (s', some (length (old before s.log))))
            × (s'.log ≡ recent before s.log ++ added)
            × (length added ≡ (if length (old before s.log) == 0 then 0 else 1))
            × All (λ e. (e.action ≡ text "audit.prune") × (e.actor_name ≡ actor)) added
            × IsIntact sha256_hex s'
            × (verify_audit_chain sha256_hex s' ≡ intact (length s'.log))
      go [] e = (
        s,
        [],
        rw e (unfold prune_rows in refl),
        sym (rw e at (old-recent before s.log t)) ∙ sym (append-nil _),
        rw e (ground arith),
        tt,
        h,
        (verify_audit_chain_lem sha256_hex s).1 h.chained,
      )
      go (o ∷ os) e =
          let safe = pruned-IsIntact s o os h t le e in
          (
            pruned s o os,
            linked sha256_hex s
                  (with_defaults now (prune_entry format_time before actor (head_hash (o ∷ os))))
                ∷ [],
            rw e (prune_rows_lem s o os),
            row-recent s (head_hash (o ∷ os)) le,
            rw e (ground arith),
            (recorded_as s o os, tt),
            safe,
            (verify_audit_chain_lem sha256_hex (pruned s o os)).1 safe.chained,
          )
