-- ===== src/Access/Roles.antt =====
-- What each role may do (auth/perms.go).
use aleart_hub.Base.{Bool, ◌||◌, ◌≡◌, List, [], ◌∷◌, arith, ◌==◌, text_eq, All, Text, text}
use aleart_hub.Access.{all_perms, role_perms, role_has_perm}
use aleart_hub.Access.Perm

-- The roles that hold every permission.
abbrev pub is_full_role : Text → Bool
is_full_role r = r == text "admin" || (r == text "owner" || r == text "org_admin")

-- The permissions to manage an organisation.
abbrev pub management : List Text
management = Perm.sa_manage ∷ Perm.member_manage ∷ Perm.org_manage ∷ Perm.settings_manage ∷ []

-- Whatever a role is called, it manages the organisation only if it is one of the three full roles,
-- it cancels alerts only if it is one of them or the dispatcher, and it publishes alerts only if it
-- is one of these or the operator.
pub role_has_perm_lem :
    (r : Text)
    → All (λ p. role_has_perm r p ≡ is_full_role r) management
      × (role_has_perm r Perm.alert_cancel ≡ (is_full_role r || r == text "dispatcher"))
      × (role_has_perm r Perm.alert_publish
          ≡ (is_full_role r || (r == text "dispatcher" || r == text "operator")))
unfolding role_has_perm role_perms all_perms
role_has_perm_lem r =
    ((ground arith, (ground arith, (ground arith, (ground arith, tt)))), ground arith, ground arith)
