-- ===== src/Routes/Reach.antt =====
-- Who reaches an endpoint without a session (api/api.go with api/middleware.go and scope.go).
use aleart_hub.Base.{
  ℕ, ◌≡◌, refl, sym, ◌∙◌, subst, Bool, true, false, not, ◌&&◌, Option, some, List, [], ◌∷◌, arith,
  any, found-All, ◌==◌, text_eq, Text, text, Map, has_prefix,
}
use aleart_hub.Access.{
  Claims, Request, Directory, Gate, unauthorized, served, nobody, bearer, authn, require_role,
  require_perm, require_scope,
}
use aleart_hub.Access.Gates.{IsServed}
use aleart_hub.RateLimit.{HitWindow}
use aleart_hub.Routes.{
  Guard, open_to_all, limited, by_role, by_perm, by_scope, Route, routes, called, dispatch,
}
use aleart_hub.Routes.Guards.{any-All, of_and, Passes, lookup, reached}

-- The endpoints that need no session: logging in, and what a client must read before.
abbrev pub public : List Text
public =
    text "handleAuthMethods"
    ∷ text "handleLogin"
    ∷ text "handleRefresh"
    ∷ text "handleLogout"
    ∷ text "handlePasskeyLoginBegin"
    ∷ text "handlePasskeyLoginFinish"
    ∷ text "handle2FAVerify"
    ∷ text "handleOIDCLogin"
    ∷ text "handleOIDCCallback"
    ∷ text "handleOIDCExchange"
    ∷ text "handleSAMLLogin"
    ∷ text "handleSAMLACS"
    ∷ text "handleSAMLMetadata"
    ∷ text "handlePubkey"
    ∷ text "metrics"
    ∷ text "handleHealthz"
    ∷ text "handleReadyz"
    ∷ []

abbrev is_ungated : Guard → Bool
is_ungated open_to_all = true
is_ungated limited = true
is_ungated (by_role m) = false
is_ungated (by_perm p) = false
is_ungated (by_scope s) = false

abbrev is_exposed : Route → Bool
is_exposed rt = is_ungated rt.guard && not (any (λ h. h == rt.handler) public)

none_exposed : any is_exposed routes ≡ false
unfolding routes
none_exposed = refl

module _ (d : Directory) (now : ℕ) (ip : Text) (r : Request) (hits : Map HitWindow) where
  not_exposed : (path : Text) (rt : Route) → lookup path ≡ some rt → is_exposed rt ≡ false
  not_exposed path rt found =
      found-All (λ x. is_exposed x ≡ false) (λ x. x.path == path) routes rt
        (any-All is_exposed routes none_exposed) found

  module _ (who : authn d r ≡ nobody)
      (key : has_prefix (text "ahk_") (bearer r.authorization) ≡ false) where
    no_role : (m : Text) → require_role d m r ≡ unauthorized
    unfolding require_role
    no_role m = rw (require_role, who) refl

    no_perm : (p : Text) → require_perm d p r ≡ unauthorized
    unfolding require_perm
    no_perm p = rw (require_perm, who) refl

    no_scope : (s : Text) → require_scope d s r ≡ unauthorized
    unfolding require_scope
    no_scope s = rw (require_scope, key) (no_role (text "admin"))

    shut : (g : Gate) (b : Bool) → g ≡ unauthorized → IsServed g → b ≡ true
    shut g b e (c, o, h) = let odd : unauthorized ≡ served c o = sym e ∙ h in absurd (ground arith)

    anonymous_stops : (g : Guard) → Passes d now ip r hits g → is_ungated g ≡ true
    anonymous_stops open_to_all passed = refl
    anonymous_stops limited passed = refl
    anonymous_stops (by_role m) passed = shut (require_role d m r) false (no_role m) passed
    anonymous_stops (by_perm p) passed = shut (require_perm d p r) false (no_perm p) passed
    anonymous_stops (by_scope s) passed = shut (require_scope d s r) false (no_scope s) passed

  listed :
      (rt : Route) (h : Text)
      → is_exposed rt ≡ false
      → is_ungated rt.guard ≡ true
      → rt.handler ≡ h
      → any (λ p. p == h) public ≡ true
  listed rt h covered free same =
      subst (λ k. any (λ p. p == k) public ≡ true) same
        (of_and (is_ungated rt.guard) (any (λ p. p == rt.handler) public) covered free)

  -- A request without a session, without the admin token and without an API key reaches no handler but
  -- the seventeen that log in, refresh or end a session, or serve what a client reads before that.
  pub anonymous_reach :
      (path h : Text) (c : Option Claims) (o : Option ℕ)
      → authn d r ≡ nobody
      → has_prefix (text "ahk_") (bearer r.authorization) ≡ false
      → (dispatch d now ip path r hits).1 ≡ called h c o
      → any (λ p. p == h) public ≡ true
  anonymous_reach path h c o who key e =
      let (rt, found, passed, same) = reached d now ip r hits path h c o e in
      listed rt h (not_exposed path rt found) (anonymous_stops who key rt.guard passed) same
