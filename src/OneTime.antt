-- ===== src/OneTime.antt =====
-- The one-time entries of a mutex-guarded map: putSession and takeSession of
-- server/internal/passkey/passkey.go, putSSOCode and takeSSOCode of
-- server/internal/api/oidc_handlers.go, which differ in what they hold and for how long. A time is in
-- nanoseconds; the random key is an argument.
pub mod Uses
mod Tests
use aleart_hub.Base.{
  ℕ, ◌+◌, ◌≡◌, Bool, true, false, Option, none, some, List, [], ◌∷◌, if◌then◌else◌, ◌==◌, text_eq,
  ltb, Text, Map, no_keys, put, delete, prune,
}

pub record Held (D : Type 0) : Type 0 where
  pub value : D
  pub expires : ℕ

module _ {D : Type 0} where
  -- time.Now().After(e.expires)
  abbrev pub is_stale : ℕ → Held D → Bool
  is_stale now h = ltb h.expires now

  -- Sweeps the stale entries, then stores the new one.
  unfoldable pub stash : ℕ → ℕ → Text → D → Map (Held D) → Map (Held D)
  stash lifetime now id d m =
      put (prune (is_stale now) m) id (record { value = d; expires = now + lifetime })

  abbrev pub fresh_data : ℕ → Option (Held D) → Option D
  fresh_data now none = none
  fresh_data now (some h) = if is_stale now h then none else some h.value

  -- Deletes the entry, and gives what it holds unless that is stale.
  unfoldable pub redeem : ℕ → Text → Map (Held D) → Map (Held D) × Option D
  redeem now id m = (delete m id, fresh_data now (m id))
