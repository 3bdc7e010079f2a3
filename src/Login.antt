-- ===== src/Login.antt =====
-- server/internal/api/auth_handlers.go and auth/auth.go: the sessions of people, with or without a
-- second factor. JSON decoding, bcrypt and JWT (golang-jwt) are parameters; a body that does not
-- decode is `none`. Cookies and the counters of metrics are not modelled.
pub mod Tokens
pub mod Locked
pub mod Password
pub mod Faults
mod Tests
use aleart_hub.Base.{
  ℕ, Bool, true, false, ◌||◌, not, Option, none, some, List, [], ◌∷◌, ◌++◌, if◌then◌else◌, ◌==◌,
  nat_eq, text_eq, Text, text,
}
use aleart_hub.Access.{
  Claims, User, Directory, Request, Gate, unauthorized, forbidden, served, require_role,
}
use aleart_hub.TwoFactor.{
  Totps, Factor, Io, Generated, status, begin, enable, verify_login, disable,
}

abbrev pub access : Text
access = text "access"

abbrev pub refresh : Text
refresh = text "refresh"

abbrev pub pending : Text
pending = text "2fa_pending"

-- What the server is set up with: whether TwoFA is there, the users, and the libraries.
-- `parse` is jwt.ParseWithClaims with the server's key, with the subject; `sign_token` signs claims
-- for a subject.
pub record Site : Type 0 where
  pub two_fa : Bool
  pub directory : Directory
  pub user_by_upn : Text → Option User
  pub check_password : Text → Text → Bool
  pub parse : Text → Option (Text × Claims)
  pub sign_token : Text → Claims → Option Text

-- One line of the audit trail: the action, who, and on what organisation.
pub record Trail : Type 0 where
  pub action : Text
  pub actor : Text
  pub org_id : ℕ

-- The rows of the second factors, the tokens given out so far, by subject and claims, and the audit
-- trail.
pub record World : Type 0 where
  pub totps : Totps
  pub issued : List (Text × Claims)
  pub trail : List Trail

pub record UserDto : Type 0 where
  pub id : ℕ
  pub upn : Text
  pub role : Text
  pub email : Text

unfoldable pub to_dto : User → UserDto
to_dto u = record { id = u.id; upn = u.upn; role = u.role; email = u.email }

-- The answers, by status and body.
pub data Reply : Type 0 where
  bad_request denied not_allowed unavailable not_found server_error no_content : Reply
  two_factor_required : Text → Reply
  session_opened : Text → Text → UserDto → Reply
  key_shown : Text → Text → Reply
  codes_shown : List Text → Reply
  enabled_shown : Bool → Reply
  user_shown : UserDto → Reply

unfoldable pub claims_of : User → Claims
claims_of u = record { user_id = u.id; upn = u.upn; role = u.role; token_version = u.token_version }

-- Verify
unfoldable pub verify_token : Site → Text → Text → Option Claims
verify_token site raw subject = elim (site.parse raw) [
  | none ↦ none
  | some (s, c) ↦ if s == subject then some c else none
]

-- IssueTokens, and the answer of the three endpoints that open a session.
unfoldable pub open_session : Site → User → World → World × Reply
open_session site u w = elim (site.sign_token access (claims_of u)) [
  | none ↦ (w, server_error)
  | some a ↦ elim (site.sign_token refresh (claims_of u)) [
    | none ↦ (w, server_error)
    | some r ↦ (
      record w { issued = w.issued ++ (access, claims_of u) ∷ (refresh, claims_of u) ∷ [] },
      session_opened a r (to_dto u),
    )
  ]
]

-- IssuePending, and the answer.
unfoldable pub ask_second_factor : Site → User → World → World × Reply
ask_second_factor site u w = elim (site.sign_token pending (claims_of u)) [
  | none ↦ (w, server_error)
  | some p ↦ (record w { issued = w.issued ++ (pending, claims_of u) ∷ [] }, two_factor_required p)
]

-- auditLoginAttempt
unfoldable pub audit_login_attempt : Site → Text → Bool → World → World
audit_login_attempt site upn ok w = record w {
  trail =
      w.trail
      ++ record {
        action = if ok then text "auth.login" else text "auth.login_failed";
        actor = upn;
        org_id = site.directory.default_org_id;
      }
        ∷ [];
}

pub record LoginReq : Type 0 where
  pub upn : Text
  pub password : Text

-- The user whose name and password these are, if the account is enabled and has a password.
unfoldable pub password_user : Site → LoginReq → Option User
password_user site req = elim (site.user_by_upn req.upn) [
  | none ↦ none
  | some u ↦
      if u.password_hash == []
        || not u.enabled
        || not (site.check_password u.password_hash req.password)
      then none
      else some u
]

-- Whether Status says that the second factor is on; its error is ignored.
unfoldable pub second_factor_on : Site → Io → User → World → Bool
second_factor_on site io u w =
    if site.two_fa then elim (status io u.id w.totps) [ none ↦ false | some on ↦ on ] else false

-- handleLogin
unfoldable pub handle_login : Site → Io → Option LoginReq → World → World × Reply
handle_login site io none w = (w, bad_request)
handle_login site io (some req) w = elim (password_user site req) [
  | none ↦ (audit_login_attempt site req.upn false w, denied)
  | some u ↦
      let logged = audit_login_attempt site u.upn true w in
      if second_factor_on site io u logged
      then ask_second_factor site u logged
      else open_session site u logged
]

pub record VerifyReq : Type 0 where
  pub pending_token : Text
  pub code : Text

-- The enabled user of a token whose version is current.
unfoldable pub token_user : Site → Text → Text → Option User
token_user site raw subject = elim (verify_token site raw subject) [
  | none ↦ none
  | some c ↦ elim (site.directory.user_by_id c.user_id) [
    | none ↦ none
    | some u ↦ if not u.enabled || not (u.token_version == c.token_version) then none else some u
  ]
]

-- handle2FAVerify
unfoldable pub handle_2fa_verify : Site → Factor → Io → Option VerifyReq → World → World × Reply
handle_2fa_verify site f io none w = (w, bad_request)
handle_2fa_verify site f io (some req) w = elim (token_user site req.pending_token pending) [
  | none ↦ (w, denied)
  | some u ↦
      let (t, accepted) = verify_login f io u.id req.code w.totps in
      let after = record w { totps = t } in
      if not site.two_fa
      then (w, unavailable)
      else if accepted
      then open_session site u after
      else (after, denied)
]

-- handleRefresh
unfoldable pub handle_refresh : Site → Option Text → World → World × Reply
handle_refresh site none w = (w, bad_request)
handle_refresh site (some raw) w = elim (token_user site raw refresh) [
  | none ↦ (w, denied)
  | some u ↦ open_session site u w
]

-- The middleware before the endpoints of a session: requireRole for the least role.
unfoldable pub gate : Site → Request → Gate
gate site r =
    require_role (record site.directory { verify_access = λ raw. verify_token site raw access })
      (text "user") r

-- An endpoint of a session, by what it does for the claims in the context (none for the admin token).
unfoldable pub with_gate : Site → Request → World → (Option Claims → World × Reply) → World × Reply
with_gate site r w handler = elim (gate site r) [
  | unauthorized ↦ (w, denied)
  | forbidden ↦ (w, not_allowed)
  | served claims org ↦ handler claims
]

-- handle2FAStatus
unfoldable pub handle_2fa_status : Site → Io → World → Option Claims → World × Reply
handle_2fa_status site io w none = (w, enabled_shown false)
handle_2fa_status site io w (some c) =
    let on = elim (status io c.user_id w.totps) as (λ o. Bool) [ none ↦ false | some b ↦ b ] in
    (w, enabled_shown (if site.two_fa then on else false))

-- handle2FABegin
unfoldable pub handle_2fa_begin :
    Site → Io → Option Generated → World → Option Claims → World × Reply
handle_2fa_begin site io g w none = (w, bad_request)
handle_2fa_begin site io g w (some c) =
    if not site.two_fa then (w, unavailable) else elim (site.directory.user_by_id c.user_id) [
      | none ↦ (w, not_found)
      | some u ↦
          let (t, shown) = begin io g u.id w.totps in
          (
            record w { totps = t },
            elim shown [ none ↦ server_error | some (url, secret) ↦ key_shown url secret ],
          )
    ]

-- The audit line of a person's action: the actor is the person, the organisation that of the request.
unfoldable pub audit_person : Claims → Text → ℕ → World → World
audit_person c action org w = record w {
  trail = w.trail ++ record { action = action; actor = c.upn; org_id = org } ∷ [];
}

-- handle2FAEnable, with the recovery codes that are drawn and the organisation of the request.
unfoldable pub handle_2fa_enable :
    Site → Factor → Io → List Text → ℕ → Option Text → World → Option Claims → World × Reply
handle_2fa_enable site f io drawn org body w none = (w, bad_request)
handle_2fa_enable site f io drawn org none w (some c) =
    if not site.two_fa then (w, unavailable) else (w, bad_request)
handle_2fa_enable site f io drawn org (some code) w (some c) =
    let (t, codes) = enable f io drawn c.user_id code w.totps in
    let after = record w { totps = t } in
    if not site.two_fa then (w, unavailable) else elim codes [
      | none ↦ (after, bad_request)
      | some shown ↦ (audit_person c (text "2fa.enable") org after, codes_shown shown)
    ]

-- handle2FADisable
unfoldable pub handle_2fa_disable :
    Site → Factor → Io → ℕ → Option Text → World → Option Claims → World × Reply
handle_2fa_disable site f io org body w none = (w, bad_request)
handle_2fa_disable site f io org none w (some c) =
    if not site.two_fa then (w, unavailable) else (w, bad_request)
handle_2fa_disable site f io org (some code) w (some c) =
    let (t, done) = disable f io c.user_id code w.totps in
    let after = record w { totps = t } in
    if not site.two_fa
    then (w, unavailable)
    else if done
    then (audit_person c (text "2fa.disable") org after, no_content)
    else (after, bad_request)

-- handleMe
unfoldable pub handle_me : Site → World → Option Claims → World × Reply
handle_me site w none =
    (w, user_shown (record { id = 0; upn = text "admin-token"; role = text "admin"; email = [] }))
handle_me site w (some c) = elim (site.directory.user_by_id c.user_id) [
  | none ↦ (w, not_found)
  | some u ↦ (w, user_shown (to_dto u))
]
