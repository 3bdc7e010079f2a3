-- ===== src/Passkey.antt =====
-- server/internal/passkey/passkey.go, store/passkey.go and api/passkey_handlers.go: registration of
-- passkeys and login with one. WebAuthn (go-webauthn), JSON and base64 are parameters; ids are never
-- negative, and times of creation and of use are not modelled.
pub mod Handle
pub mod Finish
pub mod Endpoints
pub mod Owners
mod Tests
use aleart_hub.Base.{
  ℕ, zero, suc, ◌+◌, ◌*◌, ◌/◌, ◌%◌, ◌^◌, Bool, true, false, not, ◌&&◌, ◌||◌, Option, none, some,
  List, [], ◌∷◌, ◌++◌, map, any, select, if◌then◌else◌, ◌==◌, nat_eq, text_eq, leb, length, Text,
  text, Map,
}
use aleart_hub.Access.{Claims, User}
use aleart_hub.OneTime.{Held, stash, redeem}
use aleart_hub.Login.{Site, World, Reply, denied, open_session}

-- A row of `passkey_credentials`.
pub record PasskeyRow : Type 0 where
  pub id : ℕ
  pub user_id : ℕ
  pub credential_id : Text
  pub credential : Text
  pub sign_count : ℕ
  pub name : Text

pub record PasskeyTable : Type 0 where
  pub rows : List PasskeyRow
  pub next_id : ℕ

-- AddPasskey; `credential_id` is UNIQUE, and the id of the argument is not read.
unfoldable pub add_passkey : PasskeyRow → PasskeyTable → Option PasskeyTable
add_passkey p t =
    if any (λ q. q.credential_id == p.credential_id) t.rows
    then none
    else some
        (record { rows = t.rows ++ record p { id = t.next_id } ∷ []; next_id = t.next_id + 1 })

-- ListPasskeys
unfoldable pub list_passkeys : ℕ → PasskeyTable → List PasskeyRow
list_passkeys user t = select (λ p. p.user_id == user) t.rows

-- UpdatePasskeyUsage
unfoldable pub update_passkey_usage : Text → ℕ → PasskeyTable → PasskeyTable
update_passkey_usage cred_id count t = record t {
  rows =
      map (λ p. if p.credential_id == cred_id then record p { sign_count = count } else p) t.rows;
}

-- DeletePasskey
unfoldable pub delete_passkey : ℕ → ℕ → PasskeyTable → PasskeyTable
delete_passkey user id t = record t {
  rows = select (λ p. not (p.id == id && p.user_id == user)) t.rows;
}

-- webauthn.Credential as far as the code reads it.
pub record Credential : Type 0 where
  pub id : Text
  pub sign_count : ℕ
  pub key : Text

pub record WaUser : Type 0 where
  pub id : ℕ
  pub name : Text
  pub creds : List Credential

-- The libraries. FinishDiscoverableLogin reads a raw id and a user handle from the request
-- (`asserted`), calls the handler on them, and checks the request against the user that it gives
-- (`check_login`); Base64 is RawURLEncoding.
pub record WebAuthn : Type 1 where
  pub SessionData : Type 0
  pub begin_registration : WaUser → Option (Text × SessionData)
  pub finish_registration : WaUser → SessionData → Text → Option Credential
  pub begin_login : Option (Text × SessionData)
  pub asserted : Text → Option (Text × Text)
  pub check_login : WaUser → SessionData → Text → Option Credential
  pub marshal : Credential → Text
  pub unmarshal : Text → Option Credential
  pub base64 : Text → Text

-- Five minutes, in nanoseconds.
abbrev pub session_lifetime : ℕ
session_lifetime = 5 * 60 * 1_000_000_000

-- userHandle: the id as eight bytes, the most significant first.
unfoldable pub big_endian : ℕ → ℕ → Text
big_endian zero n = []
big_endian (suc k) n = (n / 256 ^ k) % 256 ∷ big_endian k n

unfoldable pub user_handle : ℕ → Text
user_handle id = big_endian 8 (id % 2 ^ 64)

-- binary.BigEndian.Uint64 of the bytes after those already read.
unfoldable pub from_big_endian : ℕ → Text → ℕ
from_big_endian acc [] = acc
from_big_endian acc (c ∷ cs) = from_big_endian (acc * 256 + c) cs

-- GetUserByID of int64(n): a negative id has no row.
abbrev pub user_at : (ℕ → Option User) → ℕ → Option User
user_at users n = if leb (2 ^ 63) n then none else users n

-- What one request brings: the time, the random session id, and the body.
pub record Visit : Type 0 where
  pub now : ℕ
  pub random : Text
  pub body : Text

-- The handler that FinishLogin gives to the library.
unfoldable pub resolve : (ℕ → Option User) → Text → Option User
resolve users handle = if length handle == 8 then user_at users (from_big_endian 0 handle) else none

module _ (wa : WebAuthn) where
  -- sessionEntry without its expiry; the user is 0 for a login.
  pub record SessionEntry : Type 0 where
    pub session : wa.SessionData
    pub user_id : ℕ

  pub record Service : Type 0 where
    pub sessions : Map (Held SessionEntry)
    pub table : PasskeyTable

  abbrev decoded : List PasskeyRow → List Credential
  decoded [] = []
  decoded (p ∷ ps) = elim (wa.unmarshal p.credential) [
    | none ↦ decoded ps
    | some c ↦ c ∷ decoded ps
  ]

  -- loadUser
  unfoldable pub load_user : ℕ → Text → Service → WaUser
  load_user user upn s = record {
    id = user;
    name = upn;
    creds = decoded (list_passkeys user s.table);
  }

  -- putSession
  unfoldable pub put_session : Visit → wa.SessionData → ℕ → Service → Service
  put_session io session user s = record s {
    sessions =
        stash session_lifetime io.now (wa.base64 io.random)
          (record { session = session; user_id = user }) s.sessions;
  }

  -- takeSession
  unfoldable pub take_session : Visit → Text → Service → Service × Option SessionEntry
  take_session io id s = let (m, e) = redeem io.now id s.sessions in (record s { sessions = m }, e)

  -- BeginRegistration: the options and the session id.
  unfoldable pub begin_registration : Visit → ℕ → Text → Service → Service × Option (Text × Text)
  begin_registration io user upn s = elim (wa.begin_registration (load_user user upn s)) [
    | none ↦ (s, none)
    | some (options, session) ↦ (put_session io session user s, some (options, wa.base64 io.random))
  ]

  -- FinishRegistration: whether it returns nil.
  unfoldable pub finish_registration : Visit → ℕ → Text → Text → Text → Service → Service × Bool
  finish_registration io user upn session_id name s =
      let (s', taken) = take_session io session_id s in
      elim taken [
        | none ↦ (s', false)
        | some e ↦
            if not (e.user_id == user)
            then (s', false)
            else elim (wa.finish_registration (load_user user upn s') e.session io.body) [
              | none ↦ (s', false)
              | some c ↦
                  elim (add_passkey
                    (record {
                      id = 0;
                      user_id = user;
                      credential_id = wa.base64 c.id;
                      credential = wa.marshal c;
                      sign_count = c.sign_count;
                      name = if name == [] then text "Passkey" else name;
                    })
                    s'.table) [ none ↦ (s', false) | some t ↦ (record s' { table = t }, true) ]
            ]
      ]

  -- BeginLogin: the options and the session id.
  unfoldable pub begin_login : Visit → Service → Service × Option (Text × Text)
  begin_login io s = elim wa.begin_login [
    | none ↦ (s, none)
    | some (options, session) ↦ (put_session io session 0 s, some (options, wa.base64 io.random))
  ]

  -- FinishLogin
  unfoldable pub finish_login : (ℕ → Option User) → Visit → Text → Service → Service × Option User
  finish_login users io session_id s =
      let (s', taken) = take_session io session_id s in
      elim taken [
        | none ↦ (s', none)
        | some e ↦ elim (wa.asserted io.body) [
          | none ↦ (s', none)
          | some (raw, handle) ↦ elim (resolve users handle) [
            | none ↦ (s', none)
            | some u ↦ elim (wa.check_login (load_user u.id u.upn s') e.session io.body) [
              | none ↦ (s', none)
              | some c ↦ if not u.enabled then (s', none) else (
                record s' { table = update_passkey_usage (wa.base64 c.id) c.sign_count s'.table },
                some u,
              )
            ]
          ]
        ]
      ]

  -- handlePasskeyLoginFinish, on the sessions of people.
  unfoldable pub handle_passkey_login_finish :
      Site → Visit → Text → Service → World → Service × (World × Reply)
  handle_passkey_login_finish site io session_id s w =
      let (s', found) = finish_login site.directory.user_by_id io session_id s in
      elim found [ none ↦ (s', (w, denied)) | some u ↦ (s', open_session site u w) ]
