-- ===== src/Routes/Guards.antt =====
-- What a request has passed that reaches a handler (api/api.go, Handler).
use aleart_hub.Base.{
  ℕ, ◌≡◌, refl, sym, ◌∙◌, ap, Bool, true, false, not, ◌&&◌, Option, none, some, List, [], ◌∷◌,
  arith, find, any, All, Option-cases, Bool-cases, inl, inr, ◌==◌, text_eq, Text, Map,
}
use aleart_hub.Access.{
  Claims, Request, Directory, Gate, unauthorized, forbidden, served, require_role, require_perm,
  require_scope,
}
use aleart_hub.Access.Gates.{IsServed}
use aleart_hub.RateLimit.{HitWindow, allow}
use aleart_hub.Routes.{
  Guard, open_to_all, limited, by_role, by_perm, by_scope, Route, routes, auth_limit, static_file,
  too_many, no_session, no_right, called, gated, rate_limit, enter, dispatch,
}

pub any-All {ℓ} :
    {A : Type ℓ} (p : A → Bool) (xs : List A) → any p xs ≡ false → All (λ x. p x ≡ false) xs
any-All p [] h = tt
any-All p (x ∷ xs) h = (ground arith, any-All p xs (ground arith))

called-injective :
    (h h' : Text) (c c' : Option Claims) (o o' : Option ℕ) → called h c o ≡ called h' c' o' → h ≡ h'
called-injective h h' c c' o o' = ap (λ x. elim x [
  | called k _ _ ↦ k
  | static_file ↦ h
  | too_many ↦ h
  | no_session ↦ h
  | no_right ↦ h
])

gated-IsServed :
    (k h : Text) (c : Option Claims) (o : Option ℕ) (g : Gate)
    → gated k g ≡ called h c o
    → IsServed g × (k ≡ h)
unfolding gated
gated-IsServed k h c o unauthorized e = absurd (ground arith)
gated-IsServed k h c o forbidden e = absurd (ground arith)
gated-IsServed k h c o (served c' o') e = ((c', o', refl), called-injective k h c' c o' o e)

pub of_and : (a b : Bool) → (a && not b) ≡ false → a ≡ true → b ≡ true
of_and a b h k = ground arith

abbrev pub lookup : Text → Option Route
lookup path = find (λ rt. rt.path == path) routes

module _ (d : Directory) (now : ℕ) (ip : Text) (r : Request) (hits : Map HitWindow) where
  -- What the guard of a route has let pass.
  abbrev pub Passes : Guard → Type 0
  Passes open_to_all = Unit
  Passes limited = (allow auth_limit now ip hits).1 ≡ true
  Passes (by_role m) = IsServed (require_role d m r)
  Passes (by_perm p) = IsServed (require_perm d p r)
  Passes (by_scope s) = IsServed (require_scope d s r)

  entered :
      (p k h : Text) (g : Guard) (c : Option Claims) (o : Option ℕ)
      → (enter d now ip r (record { path = p; guard = g; handler = k }) hits).1 ≡ called h c o
      → Passes g × (k ≡ h)
  unfolding enter rate_limit
  entered p k h open_to_all c o e = (tt, called-injective k h none c none o e)
  entered p k h limited c o e = elim (Bool-cases (allow auth_limit now ip hits).1) [
    | inl ok ↦ (ok, called-injective k h none c none o (ground arith))
    | inr over ↦ absurd (ground arith)
  ]
  entered p k h (by_role m) c o e = gated-IsServed k h c o (require_role d m r) e
  entered p k h (by_perm q) c o e = gated-IsServed k h c o (require_perm d q r) e
  entered p k h (by_scope s) c o e = gated-IsServed k h c o (require_scope d s r) e

  dispatched :
      (path : Text) (rt : Route)
      → lookup path ≡ some rt
      → dispatch d now ip path r hits ≡ enter d now ip r rt hits
  unfolding dispatch
  dispatched path rt found = rw (dispatch, found) refl

  static : (path : Text) → lookup path ≡ none → dispatch d now ip path r hits ≡ (hits, static_file)
  unfolding dispatch
  static path missing = rw (dispatch, missing) refl

  pub reached :
      (path h : Text) (c : Option Claims) (o : Option ℕ)
      → (dispatch d now ip path r hits).1 ≡ called h c o
      → (rt : Route) × (lookup path ≡ some rt) × Passes rt.guard × (rt.handler ≡ h)
  reached path h c o e = elim (Option-cases (lookup path)) [
    | inl missing ↦
        let odd : static_file ≡ called h c o = ap (λ x. x.1) (sym (static path missing)) ∙ e in
        absurd (ground arith)
    | inr (rt, found) ↦
        let (passed, same) =
          entered rt.path rt.handler h rt.guard c o
            (ap (λ x. x.1) (sym (dispatched path rt found)) ∙ e) in
        (rt, found, passed, same)
  ]
