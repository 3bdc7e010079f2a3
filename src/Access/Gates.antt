-- ===== src/Access/Gates.antt =====
-- Whom the gates let in (api/middleware.go).
use aleart_hub.Base.{
  ℕ, Bool-cases, true, ◌≡◌, ◌≢◌, ◌↔◌, ◌⊎◌, inl, inr, refl, Option, none, some, [], arith,
  if◌then◌else◌, nat_eq, nat_eqb_iff, text_eq, text_eqb_iff, Text,
}
use aleart_hub.Access.{
  Claims, User, Request, Directory, Caller, nobody, admin_tok, person, Gate, unauthorized,
  forbidden, served, credential, session, authn, require_perm, org_for, role_has_perm,
}

-- A valid session: the token verifies, its user exists and is enabled, and the token was not revoked.
abbrev pub IsSession : Directory → Request → Claims → User → Type 0
IsSession d r c u =
    (credential r ≢ [])
    × (d.verify_access (credential r) ≡ some c)
    × (d.user_by_id c.user_id ≡ some u)
    × (u.enabled ≡ true)
    × (u.token_version ≡ c.token_version)

session_person :
    (d : Directory) (r : Request) (c : Claims) (u : User)
    → credential r ≢ []
    → session d (credential r) ≡ person c u
    → IsSession d r c u
unfolding session
session_person d r c u n h = (
  n,
  ground arith,
  ground arith,
  ground arith,
  ground (arith, nat_eqb_iff u.token_version c.token_version),
)

authn_person :
    (d : Directory) (r : Request) (c : Claims) (u : User)
    → authn d r ≡ person c u
    → (credential r ≢ []) × (session d (credential r) ≡ person c u)
unfolding authn
authn_person d r c u h =
    (ground (arith, text_eqb_iff (credential r) []), ground (arith, text_eqb_iff (credential r) []))

session_admin : (d : Directory) (raw : Text) → session d raw ≢ admin_tok
unfolding session
session_admin d raw h = ground arith

authn_admin :
    (d : Directory) (r : Request)
    → authn d r ≡ admin_tok
    → (credential r ≡ d.admin_token) × (d.admin_token ≢ [])
unfolding authn
authn_admin d r h = (
  ground (arith, text_eqb_iff (credential r) d.admin_token, session_admin d (credential r)),
  ground (arith, text_eqb_iff d.admin_token [], session_admin d (credential r)),
)

-- Why requirePerm may serve a session: a super-admin, or a membership of the active organisation
-- whose role grants the permission.
abbrev pub IsGranted : Directory → Text → Request → User → Type 0
IsGranted d perm r u =
    (u.is_superadmin ≡ true)
    ⊎ ((role : Text) × (d.membership_role (org_for d r none) u.id ≡ some role)
        × (role_has_perm role perm ≡ true))

abbrev pub IsServed : Gate → Type 0
IsServed g = (c : Option Claims) × (o : Option ℕ) × (g ≡ served c o)

-- The static admin token, or a valid session that holds the permission.
abbrev pub IsAllowed : Directory → Text → Request → Type 0
IsAllowed d perm r =
    ((credential r ≡ d.admin_token) × (d.admin_token ≢ []))
    ⊎ ((c : Claims) × (u : User) × IsSession d r c u × IsGranted d perm r u)

abbrev perm_gate : Directory → Text → Request → Caller → Gate
perm_gate d perm r who = elim who [
  | nobody ↦ unauthorized
  | admin_tok ↦ served none none
  | person c u ↦
      if u.is_superadmin
      then served none none
      else elim (d.membership_role (org_for d r none) u.id) [
        | none ↦ forbidden
        | some role ↦ if role_has_perm role perm then served (some c) none else forbidden
      ]
]

granted :
    (d : Directory) (perm : Text) (r : Request) (c : Claims) (u : User) (m : Option Text)
    → d.membership_role (org_for d r none) u.id ≡ m
    → IsServed (perm_gate d perm r (person c u))
    → IsGranted d perm r u
granted d perm r c u none e (c', o, h) = inl (ground arith)
granted d perm r c u (some role) e (c', o, h) = elim (Bool-cases u.is_superadmin) [
  | inl super ↦ inl super
  | inr plain ↦ inr (role, e, ground arith)
]

gate_served :
    (d : Directory) (perm : Text) (r : Request) (who : Caller)
    → authn d r ≡ who
    → IsServed (perm_gate d perm r who)
    → IsAllowed d perm r
gate_served d perm r nobody e (c, o, h) = absurd (cc)
gate_served d perm r admin_tok e s = inl (authn_admin d r e)
gate_served d perm r (person c u) e s =
    let (n, h) = authn_person d r c u e in
    inr (c, u, session_person d r c u n h, granted d perm r c u _ refl s)

admin_authn :
    (d : Directory) (r : Request)
    → credential r ≡ d.admin_token
    → d.admin_token ≢ []
    → authn d r ≡ admin_tok
unfolding authn
admin_authn d r h n = ground (
  arith,
  text_eqb_iff (credential r) d.admin_token,
  text_eqb_iff (credential r) [],
  text_eqb_iff d.admin_token [],
)

person_session :
    (d : Directory) (r : Request) (c : Claims) (u : User)
    → IsSession d r c u
    → session d (credential r) ≡ person c u
unfolding session
person_session d r c u (n, v, l, e, t) =
    ground (arith, v, l, e, t, nat_eqb_iff u.token_version c.token_version)

session_authn :
    (d : Directory) (r : Request) (c : Claims) (u : User)
    → IsSession d r c u
    → (authn d r ≡ admin_tok) ⊎ (authn d r ≡ person c u)
unfolding authn
session_authn d r c u s =
    ground (arith, text_eqb_iff (credential r) [], s.0, person_session d r c u s)

perm_open :
    (d : Directory) (perm : Text) (r : Request) (c : Claims) (u : User)
    → IsGranted d perm r u
    → IsServed (perm_gate d perm r (person c u))
perm_open d perm r c u (inl super) = rw super (none, none, refl)
perm_open d perm r c u (inr (role, m, p)) = elim (Bool-cases u.is_superadmin) [
  | inl super ↦ rw super (none, none, refl)
  | inr plain ↦ rw (plain, m, p) (some c, none, refl)
]

allowed_gate :
    (d : Directory) (perm : Text) (r : Request)
    → IsAllowed d perm r
    → IsServed (perm_gate d perm r (authn d r))
allowed_gate d perm r (inl (h, n)) = rw (admin_authn d r h n) (none, none, refl)
allowed_gate d perm r (inr (c, u, s, g)) = elim (session_authn d r c u s) [
  | inl a ↦ rw a (none, none, refl)
  | inr a ↦ rw a (perm_open d perm r c u g)
]

-- An endpoint behind requirePerm is served exactly to the static admin token, where one is
-- configured, and to a session that is valid, of an enabled user whose tokens were not revoked, who
-- is a super-admin or a member of the active organisation under a role with the permission.
pub require_perm-IsServed :
    (d : Directory) (perm : Text) (r : Request)
    → IsServed (require_perm d perm r) ↔ IsAllowed d perm r
unfolding require_perm
require_perm-IsServed d perm r = (gate_served d perm r (authn d r) refl, allowed_gate d perm r)
