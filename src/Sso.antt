-- ===== src/Sso.antt =====
-- server/internal/sso/oidc.go and saml.go with api/oidc_handlers.go and saml_handlers.go: single
-- sign-on, by the steps that are the code's own. OAuth2, ID tokens and SAML responses (go-oidc,
-- oauth2, crewjam/saml), JWT and randomness are parameters; the counters of metrics are left out.
pub mod Users
pub mod Callback
mod Tests
use aleart_hub.Base.{
  ℕ, ◌+◌, ◌*◌, Bool, true, false, not, ◌&&◌, ◌||◌, Option, none, some, List, [], ◌∷◌, ◌++◌, map,
  if◌then◌else◌, ◌==◌, nat_eq, text_eq, Text, text, Map,
}
use aleart_hub.Access.{Claims, User}
use aleart_hub.OneTime.{Held, stash, redeem}
use aleart_hub.Login.{UserDto, to_dto, claims_of, access, refresh}
use aleart_hub.Accounts.{Tables, get_user_by_sso, get_user_by_id, create_sso_user, add_membership}

-- Claims of package sso.
pub record Identity : Type 0 where
  pub subject : Text
  pub email : Text
  pub name : Text
  pub username : Text
  pub groups : List Text

-- The claims that Exchange reads from an ID token.
pub record IdToken : Type 0 where
  pub sub : Text
  pub email : Text
  pub name : Text
  pub preferred_username : Text
  pub groups : List Text

-- saml.Attribute and the parts of saml.Assertion that are read.
pub record Attribute : Type 0 where
  pub name : Text
  pub friendly_name : Text
  pub values : List Text

pub record Assertion : Type 0 where
  pub name_id : Option Text
  pub statements : List (List Attribute)

pub record SamlConfig : Type 0 where
  pub attr_username : Text
  pub attr_email : Text
  pub attr_name : Text
  pub attr_groups : Text

-- `if username == "" { … }`
abbrev pub or_else : Text → Text → Text
or_else a b = if a == [] then b else a

-- The end of Exchange, once the token is verified.
unfoldable pub identity_of : IdToken → Identity
identity_of c = record {
  subject = c.sub;
  email = c.email;
  name = c.name;
  username = or_else (or_else c.preferred_username c.email) c.sub;
  groups = c.groups;
}

abbrev is_named : Text → Attribute → Bool
is_named n a = a.name == n || a.friendly_name == n

abbrev first_value : Text → List Attribute → Option Text
first_value n [] = none
first_value n (a ∷ attrs) =
    let rest = first_value n attrs in
    if is_named n a then elim a.values [ [] ↦ rest | v ∷ vs ↦ some v ] else rest

abbrev first_of : Text → List (List Attribute) → Text
first_of n [] = []
first_of n (st ∷ sts) =
    let rest = first_of n sts in elim (first_value n st) [ none ↦ rest | some v ↦ v ]

-- The function `attr` in mapAssertion.
unfoldable pub attr : Assertion → Text → Text
attr a n = if n == [] then [] else first_of n a.statements

abbrev values_of : Text → List Attribute → List Text
values_of n [] = []
values_of n (a ∷ attrs) =
    let rest = values_of n attrs in if is_named n a then a.values ++ rest else rest

abbrev all_values : Text → List (List Attribute) → List Text
all_values n [] = []
all_values n (st ∷ sts) = values_of n st ++ all_values n sts

abbrev or_empty : Option Text → Text
or_empty none = []
or_empty (some t) = t

-- mapAssertion
unfoldable pub map_assertion : SamlConfig → Assertion → Identity
map_assertion cfg a =
    let subject = or_empty a.name_id in
    let email = attr a cfg.attr_email in
    let named =
      if cfg.attr_username == [] || cfg.attr_username == text "nameid"
      then subject
      else attr a cfg.attr_username in
    record {
      subject = subject;
      email = email;
      name = attr a cfg.attr_name;
      username = or_else (or_else named email) subject;
      groups = if cfg.attr_groups == [] then [] else all_values cfg.attr_groups a.statements;
    }

-- What is set up, and the libraries: the token endpoint (its id_token, empty where there is none),
-- the verifier of ID tokens (the nonce, and the claims if they decode), the SAML response of a form.
pub record Provider : Type 0 where
  pub oidc_enabled : Bool
  pub saml_enabled : Bool
  pub saml_config : SamlConfig
  pub default_role : Text
  pub default_org_id : ℕ
  pub auth_code_url : Text → Text → Text → Text
  pub redeem_code : Text → Text → Option Text
  pub verify_id_token : Text → Option (Text × Option IdToken)
  pub parse_response : Text → Option Assertion
  pub sign_token : Text → Claims → Option Text

-- Exchange
unfoldable pub exchange : Provider → Text → Text → Text → Option Identity
exchange p code nonce verifier = elim (p.redeem_code code verifier) [
  | none ↦ none
  | some raw ↦ if raw == [] then none else elim (p.verify_id_token raw) [
    | none ↦ none
    | some (n, claims) ↦
        if not (n == nonce)
        then none
        else elim claims [ none ↦ none | some c ↦ some (identity_of c) ]
  ]
]

-- ssoPending without its expiry.
pub record Pending : Type 0 where
  pub access : Text
  pub refresh : Text
  pub user : UserDto

pub record SignOn : Type 0 where
  pub org_id : ℕ
  pub upn : Text
  pub provider : Text

pub record Portal : Type 0 where
  pub tables : Tables
  pub codes : Map (Held Pending)
  pub trail : List SignOn

-- A minute, in nanoseconds.
abbrev pub code_lifetime : ℕ
code_lifetime = 60 * 1_000_000_000

-- putSSOCode, by the random code.
unfoldable pub put_sso_code : ℕ → Text → Pending → Portal → Portal
put_sso_code now code d s = record s { codes = stash code_lifetime now code d s.codes }

-- takeSSOCode
unfoldable pub take_sso_code : ℕ → Text → Portal → Portal × Option Pending
take_sso_code now code s = let (m, d) = redeem now code s.codes in (record s { codes = m }, d)

-- ensureSSOUser, where the store works.
unfoldable pub ensure_sso_user : Provider → Identity → Text → Tables → Tables × Option User
ensure_sso_user p c provider t = elim (get_user_by_sso provider c.subject t) [
  | some u ↦ (t, some u)
  | none ↦
      let role = or_else p.default_role (text "user") in
      elim (create_sso_user c.username c.email provider c.subject role t) [
        | none ↦ (t, none)
        | some (t', id) ↦
            let t2 = add_membership p.default_org_id id role t' in (t2, get_user_by_id id t2)
      ]
]

pub data SsoReply : Type 0 where
  disabled idp_error bad_state exchange_failed user_error token_error bad_json bad_code : SsoReply
  to_idp : Text → Text → Text → Text → SsoReply
  to_panel : Text → SsoReply
  session_given : Text → Text → UserDto → SsoReply

-- handleOIDCLogin: the redirect, and the cookies for state, nonce and verifier.
unfoldable pub handle_oidc_login : Provider → Text → Text → Text → SsoReply
handle_oidc_login p state nonce verifier =
    if p.oidc_enabled
    then to_idp (p.auth_code_url state nonce verifier) state nonce verifier
    else disabled

-- IssueTokens
unfoldable pub issue_tokens : Provider → User → Option (Text × Text)
issue_tokens p u = elim (p.sign_token access (claims_of u)) [
  | none ↦ none
  | some a ↦ elim (p.sign_token refresh (claims_of u)) [ none ↦ none | some r ↦ some (a, r) ]
]

-- What both handlers do once the identity is known: the account, the tokens, the one-time code.
unfoldable pub admit : Provider → ℕ → Text → Text → Identity → Portal → Portal × SsoReply
admit p now random provider c s =
    let (t, found) = ensure_sso_user p c provider s.tables in
    let s' = record s { tables = t } in
    elim found [
      | none ↦ (s', user_error)
      | some u ↦ if not u.enabled then (s', user_error) else elim (issue_tokens p u) [
        | none ↦ (s', token_error)
        | some (a, r) ↦ (
          put_sso_code now random (record { access = a; refresh = r; user = to_dto u })
              (record s' {
                trail =
                    s'.trail
                    ++ record { org_id = p.default_org_id; upn = u.upn; provider = provider } ∷ [];
              }),
          to_panel random,
        )
      ]
    ]

-- The query and the cookies of a callback; a missing one is empty.
pub record CallbackReq : Type 0 where
  pub error : Text
  pub code : Text
  pub state : Text
  pub state_cookie : Text
  pub nonce_cookie : Text
  pub verifier_cookie : Text

-- handleOIDCCallback, by the time and the random code.
unfoldable pub handle_oidc_callback : Provider → ℕ → Text → CallbackReq → Portal → Portal × SsoReply
handle_oidc_callback p now random q s =
    if not p.oidc_enabled
    then (s, disabled)
    else if not (q.error == [])
    then (s, idp_error)
    else if q.state_cookie == [] || not (q.state_cookie == q.state)
    then (s, bad_state)
    else elim (exchange p q.code q.nonce_cookie q.verifier_cookie) [
      | none ↦ (s, exchange_failed)
      | some c ↦ admit p now random (text "oidc") c s
    ]

-- handleSAMLACS for a POST.
unfoldable pub handle_saml_acs : Provider → ℕ → Text → Text → Portal → Portal × SsoReply
handle_saml_acs p now random form s =
    if not p.saml_enabled then (s, disabled) else elim (p.parse_response form) [
      | none ↦ (s, exchange_failed)
      | some a ↦ admit p now random (text "saml") (map_assertion p.saml_config a) s
    ]

-- handleOIDCExchange; a body that does not decode is `none`.
unfoldable pub handle_oidc_exchange : ℕ → Option Text → Portal → Portal × SsoReply
handle_oidc_exchange now none s = (s, bad_json)
handle_oidc_exchange now (some code) s =
    let (s', d) = take_sso_code now code s in
    elim d [ none ↦ (s', bad_code) | some d ↦ (s', session_given d.access d.refresh d.user) ]
