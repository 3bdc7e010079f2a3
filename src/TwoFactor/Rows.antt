-- ===== src/TwoFactor/Rows.antt =====
-- Which rows the operations of the second factor change (twofa.go, store/twofa.go).
use aleart_hub.Base.{
  ℕ, ◌≡◌, ◌≢◌, refl, Bool, true, false, Option, none, some, List, map, inl, inr, Bool-cases,
  Option-cases, arith, if◌then◌else◌, nat_eq, text_eq, Text, join, newline,
}
use aleart_hub.TwoFactor.{
  Totp, Totps, Factor, Io, Generated, unreadable, absent, found, get_totp, set_row,
  set_totp_recovery, upsert_totp_pending, enable_totp, status, begin, enable, secret_of, hash_code,
  valid_code, use_recovery, accept, verify_login, disable,
}

module _ (uid v : ℕ) (ne : v ≢ uid) where
  set_other : (x : Option Totp) (t : Totps) → set_row v x t uid ≡ t uid
  unfolding set_row
  set_other x t = ground arith

  recovery_other : (io : Io) (codes : Text) (t : Totps) → set_totp_recovery io v codes t uid ≡ t uid
  unfolding set_totp_recovery set_row
  recovery_other io codes t = ground arith

  pub begin_other : (io : Io) (g : Option Generated) (t : Totps) → (begin io g v t).0 uid ≡ t uid
  unfolding begin upsert_totp_pending set_row
  begin_other io none t = refl
  begin_other io (some g) t = ground arith

  enable_totp_other :
      (io : Io) (codes : Text) (t : Totps) → (enable_totp io v codes t).0 uid ≡ t uid
  unfolding enable_totp set_row
  enable_totp_other io codes t = ground arith

  pub enable_other :
      (f : Factor) (io : Io) (codes : List Text) (code : Text) (t : Totps)
      → (enable f io codes v code t).0 uid ≡ t uid
  unfolding enable
  enable_other f io codes code t =
      let stored = join newline (map (hash_code f) codes) in
      elim (Option-cases (secret_of f io v t)) [
        | inl e ↦ rw (e, enable) refl
        | inr (secret, e) ↦ elim (Bool-cases (f.validate code secret)) [
          | inl valid ↦ rw (e, valid, enable) (enable_totp_other io stored t)
          | inr invalid ↦ rw (e, invalid, enable) refl
        ]
      ]

  use_other :
      (io : Io) (left : Option (List Text)) (t : Totps) → (use_recovery io v left t).0 uid ≡ t uid
  unfolding use_recovery
  use_other io none t = refl
  use_other io (some left) t = recovery_other io (join newline left) t

  accept_other :
      (f : Factor) (io : Io) (code : Text) (r : Totp) (t : Totps)
      → (accept f io v code r t).0 uid ≡ t uid
  unfolding accept
  accept_other f io code r t = elim (Bool-cases (valid_code f r code)) [
    | inl valid ↦ rw (valid, accept) refl
    | inr invalid ↦ rw (invalid, accept) (use_other io _ t)
  ]

  pub verify_login_other :
      (f : Factor) (io : Io) (code : Text) (t : Totps) → (verify_login f io v code t).0 uid ≡ t uid
  unfolding verify_login
  verify_login_other f io code t =
      elim (get_totp io v t)
        as (λ k.
          (elim k as (λ x. Totps × Bool) [
            | unreadable ↦ (t, false)
            | absent ↦ (t, false)
            | found r ↦ if r.enabled then accept f io v code r t else (t, false)
          ]).0
            uid
          ≡ t uid) [
            | unreadable ↦ refl
            | absent ↦ refl
            | found r ↦ ground (arith, accept_other f io code r t)
          ]

  pub disable_other :
      (f : Factor) (io : Io) (code : Text) (t : Totps) → (disable f io v code t).0 uid ≡ t uid
  unfolding disable set_row
  disable_other f io code t = ground (arith, verify_login_other f io code t)

-- A code that is refused changes nothing.
pub verify_login_refused :
    (f : Factor) (io : Io) (uid : ℕ) (code : Text) (t : Totps)
    → (verify_login f io uid code t).1 ≡ false
    → (verify_login f io uid code t).0 ≡ t
unfolding verify_login accept use_recovery
verify_login_refused f io uid code t h = ground arith

-- Status on a row that can be read.
pub status_lem :
    (io : Io) (uid : ℕ) (t : Totps) (r : Totp)
    → io.reads ≡ true
    → t uid ≡ some r
    → status io uid t ≡ some r.enabled
unfolding status get_totp
status_lem io uid t r reads row = ground arith
