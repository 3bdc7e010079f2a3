-- ===== src/Access/Tests.antt =====
-- Requests at the gates.
use aleart_hub.Base.{
  true, false, ◌≡◌, ◌↔◌, refl, none, some, [], ◌∷◌, arith, if◌then◌else◌, ◌==◌, text_eq, Text, text,
  trim_space, has_prefix,
}
use aleart_hub.Access.{
  Claims, User, ServiceAccount, Request, Directory, person, served, forbidden, bearer, authn,
  require_perm, scope_allowed, split_commas, session, credential, role_has_perm, role_perms,
}
use aleart_hub.Access.Perm
use aleart_hub.Access.Gates.{IsServed, IsAllowed, require_perm-IsServed}
use aleart_hub.Access.Tenant.{IsScope}
use aleart_hub.Base.{All}

abbrev eve_claims : Claims
eve_claims = record { user_id = 7; upn = text "eve"; role = text "user"; token_version = 3 }

abbrev eve : User
eve = record {
  id = 7;
  upn = text "eve";
  email = [];
  password_hash = [];
  role = text "user";
  enabled = true;
  token_version = 3;
  is_superadmin = false;
}

abbrev key : ServiceAccount
key = record { id = 1; org_id = 5; scopes = text "alerts:ingest"; disabled = false }

abbrev hub : Directory
hub = record {
  admin_token = text "root";
  default_org_id = 1;
  verify_access = λ t. if t == text "jwt" then some eve_claims else none;
  user_by_id = λ i. some eve;
  membership_role = λ org user. some (text "operator");
  account_by_hash = λ h. if h == text "ahk_1" then some key else none;
  sha256hex = λ t. t;
}

abbrev as_eve : Request
as_eve = record { authorization = text "Bearer jwt"; cookie = none; x_org_id = text "2" }

abbrev as_key : Request
as_key = record { authorization = text "Bearer ahk_1"; cookie = none; x_org_id = text "+9" }

eve_is_person : authn hub as_eve ≡ person eve_claims eve
unfolding authn credential session bearer trim_space
eve_is_person = refl

eve_publishes : require_perm hub Perm.alert_publish as_eve ≡ served (some eve_claims) none
unfolding require_perm authn credential session bearer trim_space role_has_perm role_perms
eve_publishes = refl

eve_cannot_cancel : require_perm hub Perm.alert_cancel as_eve ≡ forbidden
unfolding require_perm authn credential session bearer trim_space role_has_perm role_perms
eve_cannot_cancel = refl

require_perm-IsServed_example :
    IsServed (require_perm hub Perm.alert_publish as_eve) ↔ IsAllowed hub Perm.alert_publish as_eve
require_perm-IsServed_example = require_perm-IsServed hub Perm.alert_publish as_eve

key_prefix : has_prefix (text "ahk_") (bearer as_key.authorization) ≡ true
unfolding bearer trim_space
key_prefix = refl

key_known : hub.account_by_hash (hub.sha256hex (bearer as_key.authorization)) ≡ some key
unfolding bearer trim_space
key_known = refl

key_scope : scope_allowed key.scopes (text "alerts:ingest") ≡ true
unfolding scope_allowed split_commas trim_space
key_scope = refl

abbrev ingest : Text
ingest = text "alerts:ingest"

abbrev acks : Text
acks = text "acks:read"

scopes_ok : All IsScope (ingest ∷ acks ∷ [])
unfolding trim_space
scopes_ok = ((ground arith, refl), ((ground arith, refl), tt))
