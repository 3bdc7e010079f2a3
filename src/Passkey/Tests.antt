-- ===== src/Passkey/Tests.antt =====
-- A login with a passkey, and requests of its owner.
use aleart_hub.Base.{
  ℕ, ◌≡◌, ◌⊎◌, refl, true, false, none, some, Option, List, [], ◌∷◌, arith, Text, text, ◌==◌,
  nat_eq, if◌then◌else◌,
}
use aleart_hub.Access.{User, Claims}
use aleart_hub.OneTime.{stash, redeem}
use aleart_hub.OneTime.Uses.{Use, stashed, after, due}
use aleart_hub.Passkey.{
  WebAuthn, Credential, SessionEntry, Service, Visit, session_lifetime, user_handle, resolve,
  list_passkeys, finish_login, load_user, take_session, from_big_endian, big_endian,
}
use aleart_hub.Passkey.Finish.{Entrance, finish_login_once}
use aleart_hub.Passkey.Endpoints.{Desk, handle_passkey_reg_finish, handle_passkey_delete}
use aleart_hub.Passkey.Owners.{passkeys_isolated}

abbrev credential : Credential
credential = record { id = text "c1"; sign_count = 3; key = text "k" }

abbrev library : WebAuthn
library = record {
  SessionData = Text;
  begin_registration = λ u. some (text "options", text "challenge");
  finish_registration = λ u s b. some credential;
  begin_login = some (text "options", text "challenge");
  asserted = λ b. some (text "c1", b);
  check_login = λ u s b. some credential;
  marshal = λ c. c.key;
  unmarshal = λ t. none;
  base64 = λ t. t;
}

abbrev ann : User
ann = record {
  id = 7;
  upn = text "ann";
  email = [];
  password_hash = [];
  role = text "user";
  enabled = true;
  token_version = 0;
  is_superadmin = false;
}

abbrev users : ℕ → Option User
users i = if i == 7 then some ann else none

abbrev login : Visit
login = record { now = 20; random = text "x"; body = user_handle 7 }

abbrev begun : List (Use (SessionEntry library))
begun = stashed 10 (text "s1") (record { session = text "challenge"; user_id = 0 }) ∷ []

abbrev service : Service library
service = record {
  sessions = after session_lifetime begun;
  table = record { rows = []; next_id = 1 };
}

-- The login goes through.
login_works : (finish_login library users login (text "s1") service).1 ≡ some ann
unfolding finish_login take_session load_user resolve user_handle big_endian from_big_endian redeem
    stash
login_works = refl

finish_login_once_example :
    (((finish_login library users login (text "s1") service).1 ≡ none)
      ⊎ ((u : User) × ((finish_login library users login (text "s1") service).1 ≡ some u)
          × Entrance library users login
              (text "s1")
              service
              u
              (due session_lifetime 20 (text "s1") begun)))
    × ((io' : Visit)
        → (finish_login library users io'
            (text "s1")
            (finish_login library users login (text "s1") service).0).1
          ≡ none)
finish_login_once_example =
    finish_login_once library users login (text "s1") service begun (omega arith, tt) refl

abbrev claims : Claims
claims = record { user_id = 7; upn = text "ann"; role = text "user"; token_version = 0 }

abbrev desk : Desk library users
desk = record { service = service; trail = [] }

keyed : (i : ℕ) (u : User) → users i ≡ some u → u.id ≡ i
keyed i u h = ground arith

passkeys_isolated_example :
    (list_passkeys 8
        (handle_passkey_reg_finish library users
          (some claims)
          login
          (text "s1")
          (text "phone")
          desk).0.service.table
      ≡ list_passkeys 8 desk.service.table)
    × (list_passkeys 8
          (handle_passkey_delete library users (some claims) (some 1) desk).0.service.table
        ≡ list_passkeys 8 desk.service.table)
passkeys_isolated_example =
    passkeys_isolated library users claims 8 login (text "s1") (text "phone") 1 desk keyed
      (λ e. omega arith)
