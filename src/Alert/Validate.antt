-- ===== src/Alert/Validate.antt =====
-- The publish-time rules of alert.go (ValidateInput) against an independent reading of SPEC §3.2.
use aleart_hub.Base.{
  ◌≡◌, refl, ◌≢◌, ◌↔◌, ◌⊎◌, true, false, none, [], ◌∷◌, arith, text_eqb, text_eqb_iff, text_eq,
  Text, text, All,
}
use aleart_hub.Alert.{
  notice, warning, critical, emergency, severity_rank?, valid_category, breaks_line, validate_input,
}

abbrev pub IsSeverity : Text → Type 0
IsSeverity s = (s ≡ notice) ⊎ (s ≡ warning) ⊎ (s ≡ critical) ⊎ (s ≡ emergency)

abbrev pub IsCategory : Text → Type 0
IsCategory c =
    (c ≡ text "earthquake")
    ⊎ (c ≡ text "fire")
    ⊎ (c ≡ text "weather")
    ⊎ (c ≡ text "system")
    ⊎ (c ≡ text "security")
    ⊎ (c ≡ text "custom")

-- Neither a line feed nor a carriage return.
abbrev pub IsUnbroken : Text → Type 0
IsUnbroken = All (λ c. (c ≢ 10) × (c ≢ 13))

pub eq_of_text_eqb : (s t : Text) → text_eqb s t ≡ true → s ≡ t
eq_of_text_eqb s t = (text_eqb_iff s t).0

IsSeverity-known : (s : Text) → severity_rank? s ≢ none → IsSeverity s
unfolding severity_rank?
IsSeverity-known s h = ground (
  arith,
  text_eqb_iff s notice,
  text_eqb_iff s warning,
  text_eqb_iff s critical,
  text_eqb_iff s emergency,
)

IsCategory-known : (c : Text) → valid_category c ≡ true → IsCategory c
unfolding valid_category
IsCategory-known c h = ground (
  arith,
  text_eqb_iff c (text "earthquake"),
  text_eqb_iff c (text "fire"),
  text_eqb_iff c (text "weather"),
  text_eqb_iff c (text "system"),
  text_eqb_iff c (text "security"),
  text_eqb_iff c (text "custom"),
)

severity_rank?-some : (s : Text) → IsSeverity s → severity_rank? s ≢ none
unfolding severity_rank?
severity_rank?-some s h = ground arith

valid_category-true : (c : Text) → IsCategory c → valid_category c ≡ true
unfolding valid_category
valid_category-true c h = ground arith

unbroken : (s : Text) → breaks_line s ≡ false → IsUnbroken s
unfolding breaks_line
unbroken [] h = tt
unbroken (c ∷ s) h = ((ground arith, ground arith), unbroken s (ground arith))

breaks_line-false : (s : Text) → IsUnbroken s → breaks_line s ≡ false
unfolding breaks_line
breaks_line-false [] h = refl
breaks_line-false (c ∷ s) h = ground (arith, breaks_line-false s h.1)

module _ (severity category title body action source : Text) where
  abbrev pub IsPublishable : Type 0
  IsPublishable =
      IsSeverity severity
      × IsCategory category
      × IsUnbroken title
      × IsUnbroken body
      × IsUnbroken action
      × IsUnbroken source

  passed :
      validate_input severity category title body action source ≡ none
      → (severity_rank? severity ≢ none)
        × (valid_category category ≡ true)
        × ((breaks_line title ≡ false)
            × (breaks_line body ≡ false)
            × (breaks_line action ≡ false)
            × (breaks_line source ≡ false))
  unfolding validate_input
  passed h = (ground arith, ground arith, (ground arith, ground arith, ground arith, ground arith))

  -- `ValidateInput` returns nil exactly when the severity is one of the four, the category is one
  -- of the six, and no free text holds a line feed or a carriage return.
  pub validate_input_lem :
      (validate_input severity category title body action source ≡ none) ↔ IsPublishable
  unfolding validate_input
  validate_input_lem = (to, from)
    where
      to : validate_input severity category title body action source ≡ none → IsPublishable
      to h =
          let (known, listed, plain) = passed h in
          (
            IsSeverity-known severity known,
            IsCategory-known category listed,
            unbroken title plain.0,
            unbroken body plain.1,
            unbroken action plain.2,
            unbroken source plain.3,
          )

      from : IsPublishable → validate_input severity category title body action source ≡ none
      from h = ground (
        arith,
        severity_rank?-some severity h.0,
        valid_category-true category h.1,
        breaks_line-false title h.2,
        breaks_line-false body h.3,
        breaks_line-false action h.4,
        breaks_line-false source h.5,
      )
