-- ===== src/Access.antt =====
-- server/internal/auth/perms.go and server/internal/api/middleware.go, scope.go, audit.go: who may
-- call which endpoint. JWT verification (golang-jwt) and the hash of an API key are parameters; ids
-- are never negative.
pub mod Perm
pub mod Roles
pub mod Gates
pub mod Tenant
mod Tests
use aleart_hub.Access.Perm
use aleart_hub.Base.{
  ℕ, zero, suc, ◌+◌, ◌*◌, ◌-◌, ◌^◌, ◌≡◌, Bool, true, false, not, ◌&&◌, ◌||◌, Option, none, some,
  List, [], ◌∷◌, drop, if◌then◌else◌, ◌==◌, nat_eq, text_eq, ltb, leb, any, length, Text, text,
  has_prefix, trim_space, nat_eqb,
}

unfoldable pub all_perms : List Text
all_perms =
    Perm.alert_publish ∷ Perm.alert_cancel ∷ Perm.alert_read ∷ Perm.device_read
    ∷ Perm.device_provision ∷ Perm.sa_manage ∷ Perm.member_manage ∷ Perm.org_manage
    ∷ Perm.settings_manage ∷ []

-- The map rolePerms; a role that is not a key has no permissions.
unfoldable pub role_perms : Text → List Text
role_perms r =
    if r == text "admin"
    then all_perms
    else if r == text "owner"
    then all_perms
    else if r == text "org_admin"
    then all_perms
    else if r == text "dispatcher"
    then Perm.alert_publish ∷ Perm.alert_cancel ∷ Perm.alert_read ∷ Perm.device_read ∷ []
    else if r == text "operator"
    then Perm.alert_publish ∷ Perm.alert_read ∷ Perm.device_read ∷ Perm.device_provision ∷ []
    else if r == text "viewer"
    then Perm.alert_read ∷ Perm.device_read ∷ []
    else if r == text "user"
    then Perm.alert_read ∷ Perm.device_read ∷ []
    else []

-- RoleHasPerm
unfoldable pub role_has_perm : Text → Text → Bool
role_has_perm role perm = any (λ p. p == perm) (role_perms role)

-- The map roleRank: a missing key reads as 0.
unfoldable pub role_rank : Text → ℕ
role_rank r = if r == text "operator" then 1 else if r == text "admin" then 2 else 0

pub record Claims : Type 0 where
  pub user_id : ℕ
  pub upn : Text
  pub role : Text
  pub token_version : ℕ

pub record User : Type 0 where
  pub id : ℕ
  pub upn : Text
  pub email : Text
  pub password_hash : Text
  pub role : Text
  pub enabled : Bool
  pub token_version : ℕ
  pub is_superadmin : Bool

pub record ServiceAccount : Type 0 where
  pub id : ℕ
  pub org_id : ℕ
  pub scopes : Text
  pub disabled : Bool

-- What the middleware reads of a request: two headers and the cookie `ah_access`.
pub record Request : Type 0 where
  pub authorization : Text
  pub cookie : Option Text
  pub x_org_id : Text

-- The tables, and what the JWT library says of an access token.
pub record Directory : Type 0 where
  pub admin_token : Text
  pub default_org_id : ℕ
  pub verify_access : Text → Option Claims
  pub user_by_id : ℕ → Option User
  pub membership_role : ℕ → ℕ → Option Text
  pub account_by_hash : Text → Option ServiceAccount
  pub sha256hex : Text → Text

unfoldable pub bearer : Text → Text
bearer h = if has_prefix (text "Bearer ") h then trim_space (drop 7 h) else []

-- Who is calling, or that nobody may.
pub data Caller : Type 0 where
  nobody : Caller
  admin_tok : Caller
  person : Claims → User → Caller

unfoldable pub credential : Request → Text
credential r =
    if bearer r.authorization == []
    then elim r.cookie [ none ↦ [] | some c ↦ c ]
    else bearer r.authorization

unfoldable pub session : Directory → Text → Caller
session d raw = elim (d.verify_access raw) [
  | none ↦ nobody
  | some c ↦ elim (d.user_by_id c.user_id) [
    | none ↦ nobody
    | some u ↦
        if not u.enabled || not (u.token_version == c.token_version) then nobody else person c u
  ]
]

unfoldable pub authn : Directory → Request → Caller
authn d r =
    let raw = credential r in
    if raw == []
    then nobody
    else if not (d.admin_token == []) && raw == d.admin_token
    then admin_tok
    else session d raw

-- The answer of a gate: an error status, or the call of the handler with what the context then
-- holds, the claims and the organisation of an API key.
pub data Gate : Type 0 where
  unauthorized : Gate
  forbidden : Gate
  served : Option Claims → Option ℕ → Gate

-- requireRole
unfoldable pub require_role : Directory → Text → Request → Gate
require_role d min r = elim (authn d r) [
  | nobody ↦ unauthorized
  | admin_tok ↦ served none none
  | person c u ↦ if ltb (role_rank u.role) (role_rank min) then forbidden else served (some c) none
]

-- strconv.ParseInt of base 10, for the values that are positive and fit an int64.
unfoldable pub digits_value : Text → ℕ → Option ℕ
digits_value [] n = some n
digits_value (c ∷ cs) n =
    let rest = digits_value cs (n * 10 + (c - 48)) in if leb 48 c && leb c 57 then rest else none

unfoldable pub parse_positive : Text → Option ℕ
parse_positive [] = none
parse_positive (c ∷ cs) =
    let digits = if c == 43 then cs else c ∷ cs in
    elim (digits_value digits 0) [
      | none ↦ none
      | some n ↦ if length digits == 0 || n == 0 || leb (2 ^ 63) n then none else some n
    ]

-- orgFor, by the organisation that the context holds.
unfoldable pub org_for : Directory → Request → Option ℕ → ℕ
org_for d r key_org = elim (parse_positive r.x_org_id) [
  | some n ↦ n
  | none ↦ elim key_org [
    | none ↦ d.default_org_id
    | some v ↦ if v == 0 then d.default_org_id else v
  ]
]

-- requirePerm
unfoldable pub require_perm : Directory → Text → Request → Gate
require_perm d perm r = elim (authn d r) [
  | nobody ↦ unauthorized
  | admin_tok ↦ served none none
  | person c u ↦
      if u.is_superadmin
      then served none none
      else elim (d.membership_role (org_for d r none) u.id) [
        | none ↦ forbidden
        | some role ↦ if role_has_perm role perm then served (some c) none else forbidden
      ]
]

abbrev pub comma : ℕ
comma = 44

abbrev onto_first : ℕ → List Text → List Text
onto_first c [] = (c ∷ []) ∷ []
onto_first c (t ∷ ts) = (c ∷ t) ∷ ts

-- strings.Split(s, ",")
unfoldable pub split_commas : Text → List Text
split_commas [] = [] ∷ []
split_commas (c ∷ s) =
    let rest = split_commas s in if nat_eqb c comma then [] ∷ rest else onto_first c rest

-- scopeAllowed
unfoldable pub scope_allowed : Text → Text → Bool
scope_allowed scopes want =
    any (λ sc. trim_space sc == want || trim_space sc == text "*") (split_commas scopes)

-- requireScope
unfoldable pub require_scope : Directory → Text → Request → Gate
require_scope d scope r =
    if has_prefix (text "ahk_") (bearer r.authorization)
    then elim (d.account_by_hash (d.sha256hex (bearer r.authorization))) [
      | none ↦ forbidden
      | some sa ↦
          if not sa.disabled && scope_allowed sa.scopes scope
          then served none (some sa.org_id)
          else forbidden
    ]
    else require_role d (text "admin") r

pub record Actor : Type 0 where
  pub kind : Text
  pub id : ℕ
  pub name : Text

abbrev admin_actor : Actor
admin_actor = record { kind = text "admin_token"; id = 0; name = text "admin-token" }

-- actorOf, by the context.
unfoldable pub actor_of : Option Claims → Option ℕ → Actor
actor_of (some c) key_org = record { kind = text "user"; id = c.user_id; name = c.upn }
actor_of none none = admin_actor
actor_of none (some v) =
    if v == 0
    then admin_actor
    else record { kind = text "service_account"; id = 0; name = text "service-account" }
