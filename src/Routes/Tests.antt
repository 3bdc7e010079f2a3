-- ===== src/Routes/Tests.antt =====
-- Requests with no session, and one that publishes.
use aleart_hub.Base.{
  ◌≡◌, refl, true, false, none, some, Text, text, any, ◌==◌, text_eq, nat_eq, no_keys, Map,
  has_prefix, [],
}
use aleart_hub.Access.{Directory, Request, nobody, bearer, credential, authn, require_perm}
use aleart_hub.RateLimit.{HitWindow, allow, record_hit}
use aleart_hub.Routes.{by_perm, routes, dispatch, enter, rate_limit, gated, called}
use aleart_hub.Routes.Guards.{Passes}
use aleart_hub.Routes.Reach.{public, anonymous_reach}
use aleart_hub.Routes.Alarms.{alarm_handlers_guarded}

abbrev hub : Directory
hub = record {
  admin_token = text "root";
  default_org_id = 1;
  verify_access = λ t. none;
  user_by_id = λ i. none;
  membership_role = λ org user. none;
  account_by_hash = λ h. none;
  sha256hex = λ t. t;
}

abbrev anyone : Request
anyone = record { authorization = []; cookie = none; x_org_id = [] }

abbrev admin : Request
admin = record { authorization = []; cookie = some (text "root"); x_org_id = [] }

abbrev no_hits : Map HitWindow
no_hits = no_keys

abbrev ip : Text
ip = text "192.0.2.1"

nobody_there : authn hub anyone ≡ nobody
unfolding authn credential bearer
nobody_there = refl

no_bearer : has_prefix (text "ahk_") (bearer anyone.authorization) ≡ false
unfolding bearer
no_bearer = refl

logs_in :
    (dispatch hub 5 ip (text "/api/auth/login") anyone no_hits).1
    ≡ called (text "handleLogin") none none
unfolding dispatch enter rate_limit routes allow record_hit
logs_in = refl

anonymous_reach_example : any (λ p. p == text "handleLogin") public ≡ true
anonymous_reach_example =
    anonymous_reach hub 5 ip anyone no_hits (text "/api/auth/login") (text "handleLogin") none none
      nobody_there no_bearer logs_in

publishes :
    (dispatch hub 5 ip (text "/api/publish") admin no_hits).1
    ≡ called (text "handlePublish") none none
unfolding dispatch enter routes gated require_perm authn credential bearer
publishes = refl

alarm_handlers_guarded_example : Passes hub 5 ip admin no_hits (by_perm (text "alert:publish"))
alarm_handlers_guarded_example =
    alarm_handlers_guarded hub 5 ip admin no_hits (text "/api/publish") (text "handlePublish")
      (by_perm (text "alert:publish")) none none refl publishes
