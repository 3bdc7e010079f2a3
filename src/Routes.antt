-- ===== src/Routes.antt =====
-- The route table of server/internal/api/api.go (Handler) and the limiter's wrapper (rateLimit of
-- ratelimit.go): which handler a request reaches. net/http's ServeMux finds an exact pattern before
-- the two subtrees of static files; a handler goes by its name in the source.
pub mod Guards
pub mod Reach
pub mod Alarms
mod Tests
use aleart_hub.Base.{
  ℕ, ◌*◌, Bool, true, false, Option, none, some, List, [], ◌∷◌, find, if◌then◌else◌, ◌==◌, text_eq,
  Text, text, Map,
}
use aleart_hub.Access.Perm
use aleart_hub.Access.{
  Claims, Request, Directory, Gate, unauthorized, forbidden, served, require_role, require_perm,
  require_scope,
}
use aleart_hub.RateLimit.{HitWindow, Limit, allow}

pub data Guard : Type 0 where
  open_to_all limited : Guard
  by_role by_perm by_scope : Text → Guard

pub record Route : Type 0 where
  pub path : Text
  pub guard : Guard
  pub handler : Text

abbrev route : Text → Guard → Text → Route
route p g h = record { path = p; guard = g; handler = h }

unfoldable pub routes : List Route
routes =
    route (text "/api/auth/methods") open_to_all (text "handleAuthMethods")
    ∷ route (text "/api/auth/login") limited (text "handleLogin")
    ∷ route (text "/api/auth/refresh") open_to_all (text "handleRefresh")
    ∷ route (text "/api/auth/logout") open_to_all (text "handleLogout")
    ∷ route (text "/api/auth/me") (by_role (text "user")) (text "handleMe")
    ∷ route (text "/api/auth/passkey/register/begin") (by_role (text "user"))
        (text "handlePasskeyRegBegin")
    ∷ route (text "/api/auth/passkey/register/finish") (by_role (text "user"))
        (text "handlePasskeyRegFinish")
    ∷ route (text "/api/auth/passkey/login/begin") open_to_all (text "handlePasskeyLoginBegin")
    ∷ route (text "/api/auth/passkey/login/finish") limited (text "handlePasskeyLoginFinish")
    ∷ route (text "/api/auth/passkey/list") (by_role (text "user")) (text "handlePasskeyList")
    ∷ route (text "/api/auth/passkey/delete") (by_role (text "user")) (text "handlePasskeyDelete")
    ∷ route (text "/api/auth/2fa/verify") limited (text "handle2FAVerify")
    ∷ route (text "/api/auth/2fa/status") (by_role (text "user")) (text "handle2FAStatus")
    ∷ route (text "/api/auth/2fa/begin") (by_role (text "user")) (text "handle2FABegin")
    ∷ route (text "/api/auth/2fa/enable") (by_role (text "user")) (text "handle2FAEnable")
    ∷ route (text "/api/auth/2fa/disable") (by_role (text "user")) (text "handle2FADisable")
    ∷ route (text "/api/auth/oidc/login") open_to_all (text "handleOIDCLogin")
    ∷ route (text "/api/auth/oidc/callback") open_to_all (text "handleOIDCCallback")
    ∷ route (text "/api/auth/oidc/exchange") limited (text "handleOIDCExchange")
    ∷ route (text "/api/auth/saml/login") open_to_all (text "handleSAMLLogin")
    ∷ route (text "/api/auth/saml/acs") limited (text "handleSAMLACS")
    ∷ route (text "/api/auth/saml/metadata") open_to_all (text "handleSAMLMetadata")
    ∷ route (text "/api/cap") (by_scope (text "alerts:ingest")) (text "handleCAPIngest")
    ∷ route (text "/api/cap/alert") (by_perm Perm.alert_read) (text "handleCAPOut")
    ∷ route (text "/api/cap/feed") (by_perm Perm.alert_read) (text "handleCAPFeed")
    ∷ route (text "/api/admin/service-accounts") (by_perm Perm.sa_manage)
        (text "handleServiceAccounts")
    ∷ route (text "/api/admin/service-accounts/delete") (by_perm Perm.sa_manage)
        (text "handleServiceAccountDelete")
    ∷ route (text "/api/publish") (by_perm Perm.alert_publish) (text "handlePublish")
    ∷ route (text "/api/scenarios") (by_perm Perm.alert_read) (text "handleScenarios")
    ∷ route (text "/api/publish/scenario") (by_perm Perm.alert_publish)
        (text "handlePublishScenario")
    ∷ route (text "/api/cancel") (by_perm Perm.alert_cancel) (text "handleCancel")
    ∷ route (text "/api/history") (by_perm Perm.alert_read) (text "handleHistory")
    ∷ route (text "/api/devices") (by_perm Perm.device_read) (text "handleDevices")
    ∷ route (text "/api/alerts/acks") (by_perm Perm.alert_read) (text "handleAcks")
    ∷ route (text "/api/alerts/escalations") (by_perm Perm.alert_read) (text "handleEscalations")
    ∷ route (text "/api/drills") (by_perm Perm.alert_read) (text "handleDrills")
    ∷ route (text "/api/drills/run") (by_perm Perm.alert_publish) (text "handleDrillRun")
    ∷ route (text "/api/delivery/stats") (by_perm Perm.alert_read) (text "handleDeliveryStats")
    ∷ route (text "/api/orgs") (by_role (text "user")) (text "handleOrgs")
    ∷ route (text "/api/sources") (by_perm Perm.alert_read) (text "handleSources")
    ∷ route (text "/api/audit") (by_perm Perm.settings_manage) (text "handleAudit")
    ∷ route (text "/api/audit/verify") (by_perm Perm.settings_manage) (text "handleAuditVerify")
    ∷ route (text "/pubkey") open_to_all (text "handlePubkey")
    ∷ route (text "/metrics") open_to_all (text "metrics")
    ∷ route (text "/healthz") open_to_all (text "handleHealthz")
    ∷ route (text "/readyz") open_to_all (text "handleReadyz")
    ∷ []

-- newRateLimiter(10, time.Minute)
abbrev pub auth_limit : Limit
auth_limit = record { max = 10; window = 60 * 1_000_000_000 }

-- What a request comes to: a static file, a refusal, or a handler with what its context holds.
pub data Reached : Type 0 where
  static_file too_many no_session no_right : Reached
  called : Text → Option Claims → Option ℕ → Reached

unfoldable pub gated : Text → Gate → Reached
gated h unauthorized = no_session
gated h forbidden = no_right
gated h (served c o) = called h c o

-- rateLimit, by the address of the client.
unfoldable pub rate_limit : ℕ → Text → Text → Map HitWindow → Map HitWindow × Reached
rate_limit now ip h hits =
    let (hits', ok) = allow auth_limit now ip hits in
    (hits', if ok then called h none none else too_many)

unfoldable pub enter :
    Directory → ℕ → Text → Request → Route → Map HitWindow → Map HitWindow × Reached
enter d now ip r rt hits = elim rt.guard [
  | open_to_all ↦ (hits, called rt.handler none none)
  | limited ↦ rate_limit now ip rt.handler hits
  | by_role m ↦ (hits, gated rt.handler (require_role d m r))
  | by_perm p ↦ (hits, gated rt.handler (require_perm d p r))
  | by_scope sc ↦ (hits, gated rt.handler (require_scope d sc r))
]

-- One request to the handler that Handler returns.
unfoldable pub dispatch :
    Directory → ℕ → Text → Text → Request → Map HitWindow → Map HitWindow × Reached
dispatch d now ip path r hits = elim (find (λ rt. rt.path == path) routes) [
  | none ↦ (hits, static_file)
  | some rt ↦ enter d now ip r rt hits
]
