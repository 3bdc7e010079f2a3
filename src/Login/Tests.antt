-- ===== src/Login/Tests.antt =====
-- A login with a password, on an account whose second factor is on.
use aleart_hub.Base.{
  ◌≡◌, inl, refl, true, false, none, some, [], ◌∷◌, arith, ◌==◌, nat_eq, text_eq, text,
  if◌then◌else◌,
}
use aleart_hub.Access.{Claims, User, Directory}
use aleart_hub.TwoFactor.{
  Totp, Factor, Io, Generated, consume, valid_code, verify_login, split_non_empty, close_part,
  split_lines, status, get_totp, accept, use_recovery,
}
use aleart_hub.Login.{
  Site, World, LoginReq, VerifyReq, claims_of, handle_login, handle_2fa_verify, handle_2fa_begin,
  open_session, audit_login_attempt, password_user, second_factor_on, ask_second_factor,
  two_factor_required,
}
use aleart_hub.Login.Tokens.{IsKnown}
use aleart_hub.Login.Locked.{IsSetUp, IsLocked}
use aleart_hub.Login.Password.{logs_in, verifies, Reaches, stays, goes, Reaches-IsLocked}
use aleart_hub.Login.Faults.{handle_login_open}

abbrev bob : User
bob = record {
  id = 7;
  upn = text "bob";
  email = [];
  password_hash = text "pw";
  role = text "admin";
  enabled = true;
  token_version = 1;
  is_superadmin = false;
}

abbrev bob_claims : Claims
bob_claims = record { user_id = 7; upn = text "bob"; role = text "admin"; token_version = 1 }

abbrev directory : Directory
directory = record {
  admin_token = [];
  default_org_id = 1;
  verify_access = λ raw. none;
  user_by_id = λ i. if i == 7 then some bob else none;
  membership_role = λ org i. none;
  account_by_hash = λ h. none;
  sha256hex = λ s. s;
}

-- A token is the subject of its claims; the claims are bob's.
abbrev site : Site
site = record {
  two_fa = true;
  directory = directory;
  user_by_upn = λ upn. if upn == text "bob" then some bob else none;
  check_password = λ hash pw. hash == pw;
  parse = λ raw. if raw == text "2fa_pending" then some (raw, bob_claims) else none;
  sign_token = λ subject c. some subject;
}

abbrev factor : Factor
factor = record { validate = λ code secret. false; sha256hex = λ s. b'#' ∷ s; unseal = λ s. some s }

abbrev io : Io
io = record { reads = true; writes = true; deletes = true }

abbrev enrolled : Totp
enrolled = record { secret_enc = text "k"; recovery = []; enabled = true }

abbrev quiet : World
quiet = record { totps = λ j. if j == 7 then some enrolled else none; issued = []; trail = [] }

abbrev right : LoginReq
right = record { upn = text "bob"; password = text "pw" }

abbrev guess : VerifyReq
guess = record { pending_token = text "2fa_pending"; code = text "000000" }

abbrev asked : World
asked = (handle_login site io (some right) quiet).0

abbrev guessed : World
guessed = (handle_2fa_verify site factor io (some guess) asked).0

-- The password is taken, and the second factor asked for.
asks : (handle_login site io (some right) quiet).1 ≡ two_factor_required (text "2fa_pending")
unfolding handle_login password_user second_factor_on status get_totp audit_login_attempt
    ask_second_factor
asks = refl

site-IsSetUp : IsSetUp site
site-IsSetUp = (refl, λ i u e. ground arith)

quiet-IsLocked : IsLocked 7 enrolled quiet
quiet-IsLocked = (refl, tt)

guess-IsKnown : IsKnown site asked (text "2fa_pending")
unfolding handle_login password_user second_factor_on status get_totp audit_login_attempt
    ask_second_factor claims_of
guess-IsKnown subject c e = inl (cc)

refused : (verify_login factor io 7 guess.code asked.totps).1 ≡ false
unfolding handle_login password_user second_factor_on status get_totp audit_login_attempt
    ask_second_factor verify_login accept use_recovery consume valid_code split_non_empty close_part
    split_lines
refused = refl

guessed-Reaches : Reaches 7 quiet guessed
guessed-Reaches =
    goes quiet asked guessed
      (goes quiet quiet asked (stays quiet) (logs_in site io (some right) quiet site-IsSetUp refl))
      (verifies site factor io guess asked site-IsSetUp guess-IsKnown refused)

Reaches-IsLocked_example : IsLocked 7 enrolled guessed
Reaches-IsLocked_example =
    Reaches-IsLocked 7 enrolled quiet guessed refl guessed-Reaches quiet-IsLocked

abbrev broken : Io
broken = record io { reads = false }

abbrev fresh_key : Generated
fresh_key = record { url = text "otpauth:"; secret = text "k2"; sealed = text "k2" }

handle_login_open_example :
    (let w' = (handle_2fa_begin site io (some fresh_key) quiet (some bob_claims)).0 in
      (handle_login site broken (some right) quiet
        ≡ open_session site bob (audit_login_attempt site (text "bob") true quiet))
      × (handle_login site io (some right) w'
          ≡ open_session site bob (audit_login_attempt site (text "bob") true w')))
unfolding password_user
handle_login_open_example =
    handle_login_open site broken io fresh_key right bob_claims bob quiet refl refl refl refl refl
      refl
