-- ===== src/Cap/Severity.antt =====
-- The severity, category and lifetime that a CAP document is given (cap.go, MapToAlert).
use aleart_hub.Base.{
  ℕ, ◌≡◌, ◌≢◌, refl, ◌≤◌, ◌<◌, inl, Bool, true, Option, none, some, List, [], ◌∷◌, arith, text_eq,
  text_eqb_iff, Text, text,
}
use aleart_hub.Alert.{notice, warning}
use aleart_hub.Alert.Validate.{IsSeverity, IsCategory}
use aleart_hub.Cap.{
  Info, Document, Mapped, cap_category, rank, collapse_severity, fallback_ttl, ttl_from,
  gated_severity, blank, fill, map_info, map_to_alert,
}
use aleart_hub.Cap.Outgoing.{expand_severity}

-- Emitting a severity as a CAP triple and reading the triple back gives the severity.
pub collapse_severity-expand_severity :
    (s : Text)
    → IsSeverity s
    → let (urgency, severity, certainty) = expand_severity s in
      collapse_severity urgency severity certainty ≡ s
unfolding collapse_severity expand_severity
collapse_severity-expand_severity s h = ground arith

pub collapse_severity-IsSeverity : (u s c : Text) → IsSeverity (collapse_severity u s c)
unfolding collapse_severity
collapse_severity-IsSeverity u s c = ground arith

pub cap_category-IsCategory : (c : Text) {k : Text} → cap_category c ≡ some k → IsCategory k
unfolding cap_category
cap_category-IsCategory c h = ground arith

rank-warning : rank warning ≡ 1
unfolding rank
rank-warning = refl

pub fallback_ttl-pos : (s : Text) → 0 < fallback_ttl s
unfolding fallback_ttl
fallback_ttl-pos s = ground arith

pub gated_severity-IsSeverity : (is_test : Bool) (i : Info) → IsSeverity (gated_severity is_test i)
unfolding gated_severity
gated_severity-IsSeverity is_test i =
    ground (arith, collapse_severity-IsSeverity i.urgency i.severity i.certainty)

pub gated_severity_test : (i : Info) → rank (gated_severity true i) ≤ 1
unfolding gated_severity
gated_severity_test i = ground (arith, rank-warning)

-- A status that is neither empty nor `Actual` marks the document as a test.
marked : (d : Document) → d.status ≢ [] → d.status ≢ text "Actual" → (blank d).is_test ≡ true
unfolding blank
marked d h k = ground (arith, text_eqb_iff d.status [], text_eqb_iff d.status (text "Actual"))

module _ (parse_time : Text → Option ℕ) where
  pub ttl_from-pos : (expires : Text) (now : ℕ) (s : Text) → 0 < ttl_from parse_time expires now s
  unfolding ttl_from
  ttl_from-pos expires now s = ground (arith, fallback_ttl-pos s)

  -- What every mapped document satisfies.
  pub record IsMapped (is_test : Bool) (m : Mapped) : Type 0 where
    pub severity : IsSeverity m.severity
    pub category : IsCategory m.category
    pub quiet_test : is_test ≡ true → rank m.severity ≤ 1

  map_info-IsMapped :
      (m : Mapped) (i : Info) (now : ℕ)
      → IsCategory m.category
      → IsMapped m.is_test (map_info parse_time m i now) × (0 < (map_info parse_time m i now).ttl)
  unfolding map_info
  map_info-IsMapped m i now h = (
    record {
      severity = gated_severity-IsSeverity m.is_test i;
      category = category (cap_category i.category) refl;
      quiet_test = λ t. rw t (gated_severity_test i);
    },
    ttl_from-pos i.expires now (gated_severity m.is_test i),
  )
    where
      category :
          (found : Option Text)
          → cap_category i.category ≡ found
          → IsCategory (elim found [ none ↦ m.category | some c ↦ c ])
      category none e = h
      category (some c) e = cap_category-IsCategory i.category e

  fill-IsMapped :
      (d : Document) (m : Mapped) (infos : List Info) (now : ℕ)
      → m.severity ≡ notice
      → IsCategory m.category
      → IsMapped m.is_test (fill parse_time d m infos now)
        × (infos ≢ [] → 0 < (fill parse_time d m infos now).ttl)
  unfolding fill
  fill-IsMapped d m [] now s c = (
    record { severity = inl s; category = c; quiet_test = λ t. rw s (unfold rank in omega arith) },
    λ ne. absurd (ne refl),
  )
  fill-IsMapped d m (i ∷ is) now s c =
      let (mapped, positive) = map_info-IsMapped m i now c in (mapped, λ _. positive)

  -- Whatever the document says, the mapped severity is one of the four and the category one of
  -- the six, a document whose status is neither empty nor `Actual` is mapped to at most
  -- `warning`, and one that has an info block gets a positive lifetime.
  pub map_to_alert-IsMapped :
      (d : Document) (now : ℕ)
      → let m = map_to_alert parse_time d now in
        IsSeverity m.severity
        × IsCategory m.category
        × (d.status ≢ [] → d.status ≢ text "Actual" → rank m.severity ≤ 1)
        × (d.info ≢ [] → 0 < m.ttl)
  unfolding map_to_alert
  map_to_alert-IsMapped d now =
      let (mapped, positive) =
        fill-IsMapped d (blank d) d.info now (unfold blank in refl)
          (unfold blank in ground arith) in
      (
        mapped.severity,
        mapped.category,
        λ some_status other. mapped.quiet_test (marked d some_status other),
        positive,
      )
