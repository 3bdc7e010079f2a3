-- ===== src/Store/Newest.antt =====
-- What a page of a sorted listing holds.
use aleart_hub.Base.{
  ℕ, zero, suc, ◌≡◌, ◌≤◌, ◌⊎◌, refl, sym, ◌∙◌, ap, subst, Bool, true, false, List, [], ◌∷◌, ◌++◌,
  arith, select, length, take, drop, Bool-cases, inl, inr,
}
use aleart_hub.Store.{insert, sort, page}

module _ {A : Type 0} (before : A → A → Bool) where
  -- Each element comes before the next.
  abbrev pub IsInOrder : List A → Type 0
  IsInOrder [] = Unit
  IsInOrder (x ∷ []) = Unit
  IsInOrder (x ∷ y ∷ xs) = (before x y ≡ true) × IsInOrder (y ∷ xs)

  abbrev pub IsTotal : Type 0
  IsTotal = (a b : A) → before a b ≡ false → before b a ≡ true

  module _ (total : IsTotal) where
    insert_after :
        (x y : A) (ys : List A)
        → before y x ≡ true
        → IsInOrder (y ∷ ys)
        → IsInOrder (y ∷ insert before x ys)
    insert_after x y [] h o = (h, tt)
    insert_after x y (z ∷ zs) h o = elim (Bool-cases (before x z)) [
      | inl first ↦ rw first (h, (first, o.1))
      | inr later ↦ rw later (o.0, insert_after x z zs (total x z later) o.1)
    ]

    insert-IsInOrder : (x : A) (ys : List A) → IsInOrder ys → IsInOrder (insert before x ys)
    insert-IsInOrder x [] o = tt
    insert-IsInOrder x (y ∷ ys) o = elim (Bool-cases (before x y)) [
      | inl first ↦ rw first (first, o)
      | inr later ↦ rw later (insert_after x y ys (total x y later) o)
    ]

    pub sort-IsInOrder : (xs : List A) → IsInOrder (sort before xs)
    sort-IsInOrder [] = tt
    sort-IsInOrder (x ∷ xs) = insert-IsInOrder x (sort before xs) (sort-IsInOrder xs)

  abbrev pub count : (A → Bool) → List A → ℕ
  count q xs = length (select q xs)

  count-insert :
      (q : A → Bool) (x : A) (ys : List A) → count q (insert before x ys) ≡ count q (x ∷ ys)
  count-insert q x [] = refl
  count-insert q x (y ∷ ys) = ground (arith, count-insert q x ys)

  pub count-sort : (q : A → Bool) (xs : List A) → count q (sort before xs) ≡ count q xs
  count-sort q [] = refl
  count-sort q (x ∷ xs) = count-insert q x (sort before xs) ∙ ground (arith, count-sort q xs)

take-append-drop : {A : Type 0} (n : ℕ) (xs : List A) → take n xs ++ drop n xs ≡ xs
take-append-drop zero xs = refl
take-append-drop (suc n) [] = refl
take-append-drop (suc n) (x ∷ xs) = ap (λ r. x ∷ r) (take-append-drop n xs)

length-take-le : {A : Type 0} (n : ℕ) (xs : List A) → length (take n xs) ≤ n
length-take-le zero xs = omega arith
length-take-le (suc n) [] = omega arith
length-take-le (suc n) (x ∷ xs) = omega (arith, length-take-le n xs)

left_over : {A : Type 0} (n : ℕ) (xs : List A) → (drop n xs ≡ []) ⊎ (length (take n xs) ≡ n)
left_over zero xs = inr refl
left_over (suc n) [] = inl refl
left_over (suc n) (x ∷ xs) = elim (left_over n xs) [ inl e ↦ inl e | inr e ↦ inr (ap suc e) ]

-- What a page shows of its rows, and what it leaves out: all of them in order, each as often as in the
-- table; something is left out only if the page is full.
pub record Page {A : Type 0} (before : A → A → Bool) (rows shown : List A) (limit : ℕ)
    : Type 0 where
  pub left_out : List A
  pub in_order : IsInOrder before (shown ++ left_out)
  pub same_rows : (q : A → Bool) → count before q (shown ++ left_out) ≡ count before q rows
  pub within : length shown ≤ limit
  pub is_full : (left_out ≡ []) ⊎ (length shown ≡ limit)

pub page-Page :
    {A : Type 0} (before : A → A → Bool) (p : A → Bool) (limit : ℕ) (rows : List A)
    → IsTotal before
    → Page before (select p rows) (page before p limit rows) limit
unfolding page
page-Page before p limit rows total =
    let all = sort before (select p rows) in
    let whole = take-append-drop limit all in
    record {
      left_out = drop limit all;
      in_order = subst (IsInOrder before) (sym whole) (sort-IsInOrder before total (select p rows));
      same_rows = λ q. ap (count before q) whole ∙ count-sort before q (select p rows);
      within = length-take-le limit all;
      is_full = left_over limit all;
    }
