-- ===== src/Base/Lists.antt =====
-- Slices: lengths over the native numbers and predicates by recursion.
use Prim.Native.Nat.{ℕ, zero, suc, ◌+◌, ◌≤◌}
use mathlib.Core.Path.{◌≡◌, refl, ap, subst}
use mathlib.Core.Logic.{◌⊎◌, inl, inr}
use mathlib.Core.Option.{Option, none, some}
use mathlib.Core.Bool.{Bool, true, false}
use mathlib.Core.List.{List, [], ◌∷◌, ◌++◌}
use native.Mathlib.Omega.{arith}
use aleart_hub.Base.Tests.{if◌then◌else◌, Bool-cases}

module _ {ℓ} {A : Type ℓ} where
  abbrev pub length : List A → ℕ
  length [] = 0
  length (_ ∷ xs) = suc (length xs)

  abbrev pub take : ℕ → List A → List A
  take zero xs = []
  take (suc n) [] = []
  take (suc n) (x ∷ xs) = x ∷ take n xs

  abbrev pub drop : ℕ → List A → List A
  drop zero xs = xs
  drop (suc n) [] = []
  drop (suc n) (x ∷ xs) = drop n xs

  abbrev pub All {κ} : (A → Type κ) → List A → Type κ
  All P [] = Unit
  All P (x ∷ xs) = P x × All P xs

  -- The elements that pass a test, in order.
  abbrev pub select : (A → Bool) → List A → List A
  select p [] = []
  select p (x ∷ xs) = let rest = select p xs in if p x then x ∷ rest else rest

  -- The first element that passes a test.
  abbrev pub find : (A → Bool) → List A → Option A
  find p [] = none
  find p (x ∷ xs) = let rest = find p xs in if p x then some x else rest

  abbrev pub any : (A → Bool) → List A → Bool
  any p [] = false
  any p (x ∷ xs) = let rest = any p xs in if p x then true else rest

  pub any-append :
      (f : A → Bool) (xs ys : List A) → any f (xs ++ ys) ≡ (if any f xs then true else any f ys)
  any-append f [] ys = refl
  any-append f (x ∷ xs) ys = ground (arith, any-append f xs ys)

  pub length-append : (xs ys : List A) → length (xs ++ ys) ≡ length xs + length ys
  length-append [] ys = omega arith
  length-append (x ∷ xs) ys = omega (arith, length-append xs ys)

  pub All-append {κ} : (P : A → Type κ) (xs ys : List A) → All P xs → All P ys → All P (xs ++ ys)
  All-append P [] ys h k = k
  All-append P (x ∷ xs) ys h k = (h.0, All-append P xs ys h.1 k)

  pub select-append :
      (p : A → Bool) (xs ys : List A) → select p (xs ++ ys) ≡ select p xs ++ select p ys
  select-append p [] ys = refl
  select-append p (x ∷ xs) ys = ground (arith, select-append p xs ys)

  pub length-select : (p : A → Bool) (xs : List A) → length (select p xs) ≤ length xs
  length-select p [] = omega arith
  length-select p (x ∷ xs) = ground (arith, length-select p xs)

  pub find-none : (p : A → Bool) (xs : List A) → find p xs ≡ none → any p xs ≡ false
  find-none p [] h = refl
  find-none p (x ∷ xs) h = ground (arith, find-none p xs)

  pub none_found : (p : A → Bool) (xs : List A) → any p xs ≡ false → find p xs ≡ none
  none_found p [] h = refl
  none_found p (x ∷ xs) h = ground (arith, none_found p xs)

  pub find-append :
      (p : A → Bool) (xs ys : List A) → any p xs ≡ false → find p (xs ++ ys) ≡ find p ys
  find-append p [] ys h = refl
  find-append p (x ∷ xs) ys h = ground (arith, find-append p xs ys)

  pub find-append_miss :
      (p : A → Bool) (xs : List A) (y : A) → p y ≡ false → find p (xs ++ y ∷ []) ≡ find p xs
  find-append_miss p [] y h = rw h refl
  find-append_miss p (x ∷ xs) y h = ground (arith, find-append_miss p xs y)

  pub some-injective : (x y : A) → some x ≡ some y → x ≡ y
  some-injective x y = ap (λ o. elim o [ none ↦ x | some z ↦ z ])

  pub Option-cases : (o : Option A) → (o ≡ none) ⊎ ((x : A) × (o ≡ some x))
  Option-cases none = inl refl
  Option-cases (some x) = inr (x, refl)

-- What holds of all elements holds of the one found, which passes the test.
pub found-All {ℓ} :
    {A : Type ℓ} (P : A → Type 0) (p : A → Bool) (xs : List A) (x : A)
    → All P xs
    → find p xs ≡ some x
    → P x
found-All P p [] x h e = absurd (ground arith)
found-All P p (y ∷ ys) x h e = elim (Bool-cases (p y)) [
  | inl here ↦ let same : some y ≡ some x = ground arith in subst P (some-injective y x same) h.0
  | inr later ↦ found-All P p ys x h.1 (ground arith)
]

pub found_passes {ℓ} :
    {A : Type ℓ} (p : A → Bool) (xs : List A) (x : A) → find p xs ≡ some x → p x ≡ true
found_passes p [] x e = absurd (ground arith)
found_passes p (y ∷ ys) x e = elim (Bool-cases (p y)) [
  | inl here ↦
      let same : some y ≡ some x = ground arith in
      subst (λ z. p z ≡ true) (some-injective y x same) here
  | inr later ↦ found_passes p ys x (ground arith)
]
