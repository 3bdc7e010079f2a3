-- ===== src/Base/Decimal.antt =====
-- strconv.Itoa and strconv.FormatInt(n, 10) of a number that is not negative.
use Prim.Native.Nat.{ℕ, zero, suc, ◌+◌, ◌-◌, ◌*◌, ◌/◌, ◌%◌, ◌≤◌, ◌<◌}
use mathlib.Core.Path.{◌≡◌, refl, sym, ap, ◌∙◌}
use mathlib.Core.Logic.{inl, inr, ◌≢◌}
use mathlib.Core.List.{[], ◌∷◌}
use native.Mathlib.Omega.{arith}
use aleart_hub.Base.Tests.{ltb, if◌then◌else◌, Bool-cases}
use aleart_hub.Base.Lists.{All}
use aleart_hub.Base.Bytes.{Text, text}

-- The digits of `n` before `out`; a number has at most as many digits as its value, plus one.
emit : ℕ → ℕ → Text → Text
emit zero n out = out
emit (suc fuel) n out =
    let rest = emit fuel (n / 10) ((b'0' + n % 10) ∷ out) in
    if ltb n 10 then (b'0' + n) ∷ out else rest

unfoldable pub itoa : ℕ → Text
unfolding emit
itoa n = emit (suc n) n []

abbrev pub IsDigit : ℕ → Type 0
IsDigit c = (b'0' ≤ c) × (c ≤ b'9')

-- The number that a run of digits denotes, after the digits read so far.
value : ℕ → Text → ℕ
value acc [] = acc
value acc (c ∷ s) = value (acc * 10 + (c - b'0')) s

value-emit : (fuel n : ℕ) (out : Text) → n < fuel → value 0 (emit fuel n out) ≡ value n out
unfolding emit value
value-emit zero n out h = absurd (omega arith)
value-emit (suc fuel) n out h = elim (Bool-cases (ltb n 10)) [
  | inl small ↦ rw small (ap (λ (k : ℕ). value k out) (omega arith))
  | inr large ↦ rw large (
      value-emit fuel (n / 10) ((b'0' + n % 10) ∷ out) (ground arith)
      ∙ ap (λ (k : ℕ). value k out) (omega arith))
]

value-itoa : (n : ℕ) → value 0 (itoa n) ≡ n
unfolding itoa value
value-itoa n = value-emit (suc n) n [] (omega arith)

pub itoa-injective : (m n : ℕ) → itoa m ≡ itoa n → m ≡ n
itoa-injective m n e = sym (value-itoa m) ∙ ap (value 0) e ∙ value-itoa n

emit-IsDigit : (fuel n : ℕ) (out : Text) → All IsDigit out → All IsDigit (emit fuel n out)
unfolding emit
emit-IsDigit zero n out h = h
emit-IsDigit (suc fuel) n out h = elim (Bool-cases (ltb n 10)) [
  | inl small ↦ rw small ((omega arith, ground arith), h)
  | inr large ↦
      rw large (emit-IsDigit fuel (n / 10) ((b'0' + n % 10) ∷ out) ((omega arith, omega arith), h))
]

pub itoa-IsDigit : (n : ℕ) → All IsDigit (itoa n)
unfolding itoa
itoa-IsDigit n = emit-IsDigit (suc n) n [] tt

All-ne : (b : ℕ) (s : Text) → ((c : ℕ) → IsDigit c → c ≢ b) → All IsDigit s → All (λ c. c ≢ b) s
All-ne b [] f h = tt
All-ne b (c ∷ s) f h = (f c h.0, All-ne b s f h.1)

-- A byte that is no digit does not occur in a printed number.
pub itoa-ne : (b n : ℕ) → ((c : ℕ) → IsDigit c → c ≢ b) → All (λ c. c ≢ b) (itoa n)
itoa-ne b n f = All-ne b (itoa n) f (itoa-IsDigit n)

itoa_sample : itoa 1700000000 ≡ text "1700000000"
unfolding itoa
itoa_sample = refl

itoa_zero : itoa 0 ≡ text "0"
unfolding itoa
itoa_zero = refl
