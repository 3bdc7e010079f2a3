-- ===== src/Passkey/Handle.antt =====
-- The user handle of a passkey (userHandle and FinishLogin of passkey.go).
use aleart_hub.Base.{ℕ, zero, suc, ◌%◌, ◌^◌, ◌≡◌, ◌<◌, refl, ap, Option, arith, All, length}
use aleart_hub.Access.{User}
use aleart_hub.Passkey.{big_endian, user_handle, from_big_endian, resolve}

big_endian_lem : (id : ℕ) → id < 2 ^ 64 → from_big_endian 0 (big_endian 8 id) ≡ id
unfolding big_endian from_big_endian
big_endian_lem id h = omega arith

big_endian-bytes : (k n : ℕ) → (length (big_endian k n) ≡ k) × All (λ c. c < 256) (big_endian k n)
unfolding big_endian
big_endian-bytes zero n = (refl, tt)
big_endian-bytes (suc k) n = let (l, b) = big_endian-bytes k n in (ap suc l, (omega arith, b))

-- The handle of a user is eight bytes, and FinishLogin's handler reads the user back from it.
pub resolve-user_handle :
    (users : ℕ → Option User) (id : ℕ)
    → id < 2 ^ 63
    → All (λ c. c < 256) (user_handle id)
      × (length (user_handle id) ≡ 8)
      × (resolve users (user_handle id) ≡ users id)
unfolding user_handle resolve
resolve-user_handle users id h =
    let whole : id % 2 ^ 64 ≡ id = omega arith in
    let (l, b) = big_endian-bytes 8 (id % 2 ^ 64) in
    (b, l, rw (l, whole, big_endian_lem id (omega arith)) (ground arith))
