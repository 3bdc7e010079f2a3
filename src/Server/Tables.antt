-- ===== src/Server/Tables.antt =====
-- The table `alerts` (store/store.go, Save).
use aleart_hub.Base.{
  ℕ, ◌≤◌, ◌≡◌, refl, ◌∙◌, Bool-cases, true, false, inl, inr, List, [], ◌∷◌, map, Text, text_eqb_iff,
  arith, not, if◌then◌else◌, text_eq, select, select-append, append-nil, length, any,
}
use aleart_hub.Alert.{Alert}
use aleart_hub.Server.{Row, has_alert_id, save}

abbrev pub row_of : Alert → ℕ → Row
row_of a org = record { org_id = org; alert = a }

-- The rows of one id, and the others.
abbrev pub rows_of : Text → List Row → List Row
rows_of i rows = select (has_alert_id i) rows

abbrev pub rows_beside : Text → List Row → List Row
rows_beside i rows = select (λ r. not (has_alert_id i r)) rows

abbrev overwritten : Alert → ℕ → List Row → List Row
overwritten a org rows = map (λ r. if has_alert_id a.id r then row_of a org else r) rows

length-overwritten :
    (a : Alert) (org : ℕ) (rows : List Row)
    → length (rows_of a.id (overwritten a org rows)) ≡ length (rows_of a.id rows)
length-overwritten a org [] = refl
length-overwritten a org (r ∷ rs) =
    ground (arith, length-overwritten a org rs, text_eqb_iff a.id a.id)

beside_overwritten :
    (a : Alert) (org : ℕ) (rows : List Row)
    → rows_beside a.id (overwritten a org rows) ≡ rows_beside a.id rows
beside_overwritten a org [] = refl
beside_overwritten a org (r ∷ rs) =
    ground (arith, beside_overwritten a org rs, text_eqb_iff a.id a.id)

none_of : (i : Text) (rows : List Row) → any (has_alert_id i) rows ≡ false → rows_of i rows ≡ []
none_of i [] h = refl
none_of i (r ∷ rs) h = ground (arith, none_of i rs)

empty_of_length : (rs : List Row) → length rs ≤ 0 → rs ≡ []
empty_of_length [] h = refl
empty_of_length (r ∷ rs) h = absurd (omega (arith, h))

first_of :
    (a : Alert) (org : ℕ) (r : Row) (rs : List Row)
    → has_alert_id a.id r ≡ true
    → length (rows_of a.id (r ∷ rs)) ≤ 1
    → rows_of a.id (overwritten a org (r ∷ rs)) ≡ row_of a org ∷ []
first_of a org r rs same k =
    let few : length (rows_of a.id (overwritten a org rs)) ≤ 0 =
      ground (arith, length-overwritten a org rs) in
    let gone = empty_of_length (rows_of a.id (overwritten a org rs)) few in
    rw (same, (text_eqb_iff a.id a.id).1 refl, gone) refl

one_of :
    (a : Alert) (org : ℕ) (rows : List Row)
    → any (has_alert_id a.id) rows ≡ true
    → length (rows_of a.id rows) ≤ 1
    → rows_of a.id (overwritten a org rows) ≡ row_of a org ∷ []
one_of a org [] h k = absurd (cc)
one_of a org (r ∷ rs) h k = elim (Bool-cases (has_alert_id a.id r)) [
  | inl same ↦ first_of a org r rs same k
  | inr other ↦ rw (other, other) (one_of a org rs (rw other at h) (rw other at k))
]

-- Where at most one row has the id of an alert, saving the alert leaves exactly one row of that id,
-- with the alert and the organisation of the save, even if the row belonged to another organisation;
-- the rows of all other ids stay as they were.
pub save_lem :
    (a : Alert) (org : ℕ) (rows : List Row)
    → length (rows_of a.id rows) ≤ 1
    → (rows_of a.id (save a org rows) ≡ record { org_id = org; alert = a } ∷ [])
      × (rows_beside a.id (save a org rows) ≡ rows_beside a.id rows)
unfolding save
save_lem a org rows h = elim (Bool-cases (any (has_alert_id a.id) rows)) [
  | inl old ↦ rw old (one_of a org rows old h, beside_overwritten a org rows)
  | inr new ↦ rw new (
    select-append (has_alert_id a.id) rows (record { org_id = org; alert = a } ∷ [])
        ∙ rw (none_of a.id rows new, (text_eqb_iff a.id a.id).1 refl) refl,
    select-append (λ r. not (has_alert_id a.id r)) rows (record { org_id = org; alert = a } ∷ [])
        ∙ rw ((text_eqb_iff a.id a.id).1 refl) (append-nil (rows_beside a.id rows)),
  )
]
