-- ===== src/Delivery/Backoff.antt =====
-- The retry delay in closed form (delivery.go, backoff).
use Prim.Native.Nat.{min}
use native.Mathlib.Nat.{pow-suc}
use aleart_hub.Base.{
  ℕ, zero, suc, ◌*◌, ◌^◌, ◌≤◌, ◌<◌, ◌≡◌, ap, ◌∙◌, inl, inr, Bool-cases, arith, leb, leb→le,
}
use aleart_hub.Delivery.{Config, backoff_from, backoff}

pow-pos : (n : ℕ) → 1 ≤ 2 ^ n
pow-pos zero = omega arith
pow-pos (suc n) = rw pow-suc (omega (arith, pow-pos n))

le-mul_pos : (a m : ℕ) → 1 ≤ m → a ≤ a * m
le-mul_pos a m h = grind arith

doubled : (d n : ℕ) → d * 2 ^ suc n ≡ d * 2 * 2 ^ n
doubled d n = rw pow-suc (omega arith)

backoff_from_lem : (n d limit : ℕ) → d ≤ limit → backoff_from n d limit ≡ min (d * 2 ^ n) limit
unfolding backoff_from
backoff_from_lem zero d limit h = omega arith
backoff_from_lem (suc n) d limit h = elim (Bool-cases (leb limit (d * 2))) [
  | inl reached ↦ rw reached (
      rw (doubled d n)
        (omega (arith, le-mul_pos (d * 2) (2 ^ n) (pow-pos n), leb→le limit (d * 2) reached)))
  | inr below ↦ rw below (rw (doubled d n) (backoff_from_lem n (d * 2) limit (ground arith)))
]

-- Where the base delay is within the limit, attempt `k` is retried after the base delay doubled
-- k - 1 times, or after the limit if that is less.
pub backoff_lem :
    (c : Config) (k : ℕ)
    → c.base_backoff ≤ c.max_backoff
    → backoff c (suc k) ≡ min (c.base_backoff * 2 ^ k) c.max_backoff
unfolding backoff
backoff_lem c k h =
    ap (λ (n : ℕ). backoff_from n c.base_backoff c.max_backoff) (omega arith)
    ∙ backoff_from_lem k c.base_backoff c.max_backoff h

-- The first delay is not held to the limit: with a base delay above the limit the first retry waits
-- longer than the limit, and every later one waits the limit.
pub backoff_uncapped :
    (c : Config) (k : ℕ)
    → c.max_backoff < c.base_backoff
    → (c.max_backoff < backoff c 1) × (backoff c (suc (suc k)) ≡ c.max_backoff)
unfolding backoff backoff_from
backoff_uncapped c k h = (ground arith, ground arith)
