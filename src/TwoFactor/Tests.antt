-- ===== src/TwoFactor/Tests.antt =====
-- A recovery code used twice, with a hash that marks the code.
use aleart_hub.Base.{
  ◌≡◌, ◌≢◌, refl, true, false, none, some, List, [], ◌∷◌, arith, ◌==◌, nat_eq, text_eq, Text, text,
  join, newline, trim_space, IsOneLine-has_byte, if◌then◌else◌,
}
use aleart_hub.TwoFactor.{Totp, Totps, Factor, Io, hash_code, consume, valid_code, verify_login}
use aleart_hub.TwoFactor.Recovery.{HasCodes, IsPart, verify_login_once}

abbrev factor : Factor
factor = record {
  validate = λ code secret. code == secret;
  sha256hex = λ s. b'#' ∷ s;
  unseal = λ s. some s;
}

abbrev io : Io
io = record { reads = true; writes = true; deletes = true }

abbrev hashes : List Text
hashes = text "#ab" ∷ text "#cd" ∷ []

abbrev enrolled : Totp
enrolled = record { secret_enc = text "123456"; recovery = join newline hashes; enabled = true }

abbrev rows : Totps
rows j = if j == 7 then some enrolled else none

is_part : IsPart (text "#ab")
is_part = (λ e. ground arith, IsOneLine-has_byte (text "#ab") refl)

is_part' : IsPart (text "#cd")
is_part' = (λ e. ground arith, IsOneLine-has_byte (text "#cd") refl)

enrolled-HasCodes : HasCodes enrolled hashes
unfolding consume
enrolled-HasCodes = record {
  stored = refl;
  parts = (is_part, (is_part', tt));
  distinct = (refl, (refl, tt));
  is_on = refl;
}

verify_login_once_example :
    (let (t', accepted) = verify_login factor io 7 (text " ab") rows in
      (accepted ≡ true)
      × (t' 7 ≡ some (record enrolled { recovery = join newline (text "#cd" ∷ []) }))
      × HasCodes (record enrolled { recovery = join newline (text "#cd" ∷ []) }) (text "#cd" ∷ [])
      × ((verify_login factor io 7 (text " ab") t').1 ≡ false)
      × ((other : Text)
          → valid_code factor enrolled other ≡ false
          → hash_code factor (text " ab") ≢ hash_code factor other
          → (verify_login factor io 7 other t').1 ≡ (verify_login factor io 7 other rows).1))
unfolding consume hash_code valid_code trim_space
verify_login_once_example =
    verify_login_once factor io 7 (text " ab") rows enrolled hashes (text "#cd" ∷ []) refl refl refl
      enrolled-HasCodes refl refl
