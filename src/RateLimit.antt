-- ===== src/RateLimit.antt =====
-- server/internal/api/ratelimit.go: the fixed-window limiter of the credential endpoints. Times and
-- the window are in nanoseconds.
pub mod Window
mod Tests
use aleart_hub.Base.{
  ℕ, ◌+◌, Bool, true, false, Option, none, some, if◌then◌else◌, ltb, leb, Text, Map, put, prune,
}

pub record HitWindow : Type 0 where
  pub count : ℕ
  pub reset : ℕ

pub record Limit : Type 0 where
  pub max : ℕ
  pub window : ℕ

-- `now.After(w.reset)`
unfoldable pub is_over : ℕ → HitWindow → Bool
is_over now w = ltb w.reset now

-- The part of `allow` after the windows that are over are dropped.
unfoldable pub record_hit : Limit → ℕ → Text → Map HitWindow → Map HitWindow × Bool
record_hit rl now key hits = elim (hits key) [
  | none ↦ (put hits key (record { count = 1; reset = now + rl.window }), true)
  | some w ↦
      if is_over now w
      then (put hits key (record { count = 1; reset = now + rl.window }), true)
      else if leb rl.max w.count
      then (hits, false)
      else (put hits key (record w { count = w.count + 1 }), true)
]

-- rateLimiter.allow
unfoldable pub allow : Limit → ℕ → Text → Map HitWindow → Map HitWindow × Bool
allow rl now key hits = record_hit rl now key (prune (is_over now) hits)
