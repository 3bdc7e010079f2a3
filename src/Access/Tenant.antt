-- ===== src/Access/Tenant.antt =====
-- The organisation and the scopes of an API key (api/scope.go, api/audit.go).
use aleart_hub.Base.{
  ℕ, true, false, ◌||◌, ◌≡◌, ◌≢◌, ◌↔◌, refl, ap, ◌∙◌, Option, none, some, List, [], ◌∷◌, ◌++◌,
  arith, if◌then◌else◌, ◌==◌, nat_eq, nat_eqb_iff, text_eq, Text, text, any, All, join, has_prefix,
  trim_space,
}
use aleart_hub.Access.Gates.{IsServed}
use aleart_hub.Access.{
  Claims, User, ServiceAccount, Request, Directory, person, Gate, Actor, served, unauthorized,
  forbidden, bearer, authn, require_perm, require_scope, scope_allowed, split_commas, comma,
  org_for, parse_positive, actor_of,
}

-- A scope that a list can hold: no comma, no space at its ends.
abbrev pub IsScope : Text → Type 0
IsScope s = All (λ c. c ≢ comma) s × (trim_space s ≡ s)

split_last : (s : Text) → All (λ c. c ≢ comma) s → split_commas s ≡ s ∷ []
unfolding split_commas
split_last [] h = refl
split_last (c ∷ s) h = ground (arith, split_last s h.1)

split_head :
    (s t : Text) → All (λ c. c ≢ comma) s → split_commas (s ++ comma ∷ t) ≡ s ∷ split_commas t
unfolding split_commas
split_head [] t h = refl
split_head (c ∷ s) t h = ground (arith, split_head s t h.1)

split-join :
    (s : Text) (ss : List Text) → All IsScope (s ∷ ss) → split_commas (join comma (s ∷ ss)) ≡ s ∷ ss
split-join s [] h = split_last s (h.0).0
split-join s (t ∷ ts) h =
    split_head s (join comma (t ∷ ts)) (h.0).0 ∙ ap (λ r. s ∷ r) (split-join t ts h.1)

trimmed :
    (want : Text) (ss : List Text)
    → All IsScope ss
    → any (λ sc. trim_space sc == want || trim_space sc == text "*") ss
      ≡ any (λ sc. sc == want || sc == text "*") ss
trimmed want [] h = refl
trimmed want (s ∷ ss) h = rw ((h.0).1, trimmed want ss h.1) refl

-- A key whose scopes are written as a list separated by commas has a scope exactly when the list
-- names it or names the wildcard.
pub scope_allowed-join :
    (want s : Text) (ss : List Text)
    → All IsScope (s ∷ ss)
    → scope_allowed (join comma (s ∷ ss)) want ≡ any (λ sc. sc == want || sc == text "*") (s ∷ ss)
unfolding scope_allowed
scope_allowed-join want s ss h =
    ap (any (λ sc. trim_space sc == want || trim_space sc == text "*")) (split-join s ss h)
    ∙ trimmed want (s ∷ ss) h

-- A request that carries an API key is served behind requireScope exactly when the key is known,
-- is not disabled and has the scope; no session and no admin token are tried.
pub require_scope-IsServed :
    (d : Directory) (scope : Text) (r : Request)
    → has_prefix (text "ahk_") (bearer r.authorization) ≡ true
    → IsServed (require_scope d scope r) ↔ (
        (sa : ServiceAccount) × (d.account_by_hash (d.sha256hex (bearer r.authorization)) ≡ some sa)
        × (sa.disabled ≡ false)
        × (scope_allowed sa.scopes scope ≡ true))
require_scope-IsServed d scope r h = (
  key_served d scope r _ h refl,
  λ (sa, e, off, ok). (none, some sa.org_id, unfold require_scope in ground arith),
)
  where
    key_served :
        (d : Directory) (scope : Text) (r : Request) (a : Option ServiceAccount)
        → has_prefix (text "ahk_") (bearer r.authorization) ≡ true
        → d.account_by_hash (d.sha256hex (bearer r.authorization)) ≡ a
        → IsServed (require_scope d scope r)
        → (sa : ServiceAccount) × (d.account_by_hash (d.sha256hex (bearer r.authorization))
            ≡ some sa)
          × (sa.disabled ≡ false)
          × (scope_allowed sa.scopes scope ≡ true)
    key_served d scope r none h e (c, o, s) = absurd (unfold require_scope in ground arith)
    key_served d scope r (some sa) h e (c, o, s) =
        (sa, e, unfold require_scope in ground arith, unfold require_scope in ground arith)

-- The handler behind an API key acts for the organisation that the request's header names, whatever
-- organisation the key belongs to, and for the key's own only where the header names none.
pub require_scope_org :
    (d : Directory) (scope : Text) (r : Request) (sa : ServiceAccount)
    → has_prefix (text "ahk_") (bearer r.authorization) ≡ true
    → d.account_by_hash (d.sha256hex (bearer r.authorization)) ≡ some sa
    → sa.disabled ≡ false
    → scope_allowed sa.scopes scope ≡ true
    → sa.org_id ≢ 0
    → (require_scope d scope r ≡ served none (some sa.org_id))
      × (org_for d r (some sa.org_id)
          ≡ elim (parse_positive r.x_org_id) [ none ↦ sa.org_id | some n ↦ n ])
unfolding require_scope org_for
require_scope_org d scope r sa k a e o n = (ground arith, ground (arith, nat_eqb_iff sa.org_id 0))

-- The actor that a handler behind the gate records.
gate_actor : Gate → Actor
gate_actor unauthorized = actor_of none none
gate_actor forbidden = actor_of none none
gate_actor (served c o) = actor_of c o

serves :
    (d : Directory) (perm : Text) (r : Request) (c : Claims) (u : User) (k : Option Claims)
    (o : Option ℕ)
    → authn d r ≡ person c u
    → require_perm d perm r ≡ served k o
    → served k o ≡ served (if u.is_superadmin then none else some c) none
unfolding require_perm
serves d perm r c u k o a s = ground arith

-- A super-admin who is served behind requirePerm is recorded in the audit trail as the static admin
-- token, and any other session under its own name.
pub require_perm_actor :
    (d : Directory) (perm : Text) (r : Request) (c : Claims) (u : User) (k : Option Claims)
    (o : Option ℕ)
    → authn d r ≡ person c u
    → require_perm d perm r ≡ served k o
    → actor_of k o ≡ (
        if u.is_superadmin
        then record { kind = text "admin_token"; id = 0; name = text "admin-token" }
        else record { kind = text "user"; id = c.user_id; name = c.upn })
unfolding gate_actor actor_of
require_perm_actor d perm r c u k o a s = ap gate_actor (serves d perm r c u k o a s) ∙ ground arith
