-- ===== src/Routes/Alarms.antt =====
-- Who reaches the endpoints of alarms (api/api.go with api/middleware.go and scope.go).
use aleart_hub.Base.{
  ap, ◌∙◌, none, some, if◌then◌else◌, ℕ, ◌≡◌, refl, sym, subst, Bool, true, false, not, ◌||◌,
  Option, arith, any, found-All, ◌==◌, text_eq, text_eqb_iff, Text, text, Map,
}
use aleart_hub.Access.{Claims, Request, Directory}
use aleart_hub.RateLimit.{HitWindow}
use aleart_hub.Routes.{
  Guard, open_to_all, limited, by_role, by_perm, by_scope, Route, routes, called, dispatch,
}
use aleart_hub.Routes.Guards.{any-All, Passes, reached}

-- The guard that the handlers which raise or recall an alarm, or start a drill, stand behind.
abbrev pub required : Text → Option Guard
required h =
    if h == text "handlePublish" || h == text "handlePublishScenario" || h == text "handleDrillRun"
    then some (by_perm (text "alert:publish"))
    else if h == text "handleCancel"
    then some (by_perm (text "alert:cancel"))
    else if h == text "handleCAPIngest"
    then some (by_scope (text "alerts:ingest"))
    else none

abbrev same_guard : Guard → Guard → Bool
same_guard (by_perm p) (by_perm q) = p == q
same_guard (by_scope s) (by_scope t) = s == t
same_guard _ _ = false

same_guard_lem : (g h : Guard) → same_guard g h ≡ true → h ≡ g
same_guard_lem (by_perm p) (by_perm q) e = ap by_perm (sym ((text_eqb_iff p q).0 e))
same_guard_lem (by_scope s) (by_scope t) e = ap by_scope (sym ((text_eqb_iff s t).0 e))
same_guard_lem (by_perm p) open_to_all e = absurd (ground arith)
same_guard_lem (by_perm p) limited e = absurd (ground arith)
same_guard_lem (by_perm p) (by_role q) e = absurd (ground arith)
same_guard_lem (by_perm p) (by_scope q) e = absurd (ground arith)
same_guard_lem (by_scope s) open_to_all e = absurd (ground arith)
same_guard_lem (by_scope s) limited e = absurd (ground arith)
same_guard_lem (by_scope s) (by_role q) e = absurd (ground arith)
same_guard_lem (by_scope s) (by_perm q) e = absurd (ground arith)
same_guard_lem open_to_all h e = absurd (ground arith)
same_guard_lem limited h e = absurd (ground arith)
same_guard_lem (by_role m) h e = absurd (ground arith)

abbrev is_loose : Route → Bool
is_loose rt = elim (required rt.handler) [ none ↦ false | some g ↦ not (same_guard g rt.guard) ]

none_loose : any is_loose routes ≡ false
unfolding routes
none_loose = refl

tight :
    (rt : Route) (h : Text) (g : Guard)
    → is_loose rt ≡ false
    → rt.handler ≡ h
    → required h ≡ some g
    → rt.guard ≡ g
tight rt h g closed same asked =
    let own : required rt.handler ≡ some g = ap required same ∙ asked in
    same_guard_lem g rt.guard (let k = rw (is_loose, own) at closed in ground (arith, k))

-- Over HTTP, handlePublish, handlePublishScenario and handleDrillRun are reached only by a request
-- that the gate for alert:publish serves, handleCancel only by one that the gate for alert:cancel
-- serves, and handleCAPIngest only by one that the gate for the scope alerts:ingest serves.
pub alarm_handlers_guarded :
    (d : Directory) (now : ℕ) (ip : Text) (r : Request) (hits : Map HitWindow) (path h : Text)
    (g : Guard) (c : Option Claims) (o : Option ℕ)
    → required h ≡ some g
    → (dispatch d now ip path r hits).1 ≡ called h c o
    → Passes d now ip r hits g
alarm_handlers_guarded d now ip r hits path h g c o asked e =
    let (rt, found, passed, same) = reached d now ip r hits path h c o e in
    let closed =
      found-All (λ x. is_loose x ≡ false) (λ x. x.path == path) routes rt
        (any-All is_loose routes none_loose) found in
    subst (Passes d now ip r hits) (tight rt h g closed same asked) passed
