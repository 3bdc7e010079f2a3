-- ===== src/Accounts.antt =====
-- server/internal/store/users.go, orgs.go and service_accounts.go: the tables of who there is, which
-- api/serviceaccount_handlers.go, api/orgs_handlers.go and the start of main.go work on. Rows stand
-- in the order of their ids, which are given out from a counter and never reused; times of creation
-- and of use are not modelled. An operation that breaks a UNIQUE column is `none`.
pub mod Keys
pub mod Admin
pub mod Boot
pub mod Tests
use aleart_hub.Base.{
  ℕ, ◌+◌, Bool, true, false, not, ◌&&◌, ◌||◌, Option, none, some, List, [], ◌∷◌, ◌++◌, map, any,
  select, find, length, if◌then◌else◌, ◌==◌, nat_eq, text_eq, Text, text,
}
use aleart_hub.Access.{User, ServiceAccount, Directory}
use aleart_hub.Server.{Row}

-- A row of `users`: the user, and the SSO identity (both empty for a password user).
pub record UserRow : Type 0 where
  pub user : User
  pub sso_provider : Text
  pub sso_subject : Text

pub record Org : Type 0 where
  pub id : ℕ
  pub slug : Text
  pub name : Text

pub record Membership : Type 0 where
  pub org_id : ℕ
  pub user_id : ℕ
  pub base_role : Text

-- A row of `service_accounts`.
pub record KeyRow : Type 0 where
  pub account : ServiceAccount
  pub name : Text
  pub token_hash : Text

pub record Tables : Type 0 where
  pub users : List UserRow
  pub orgs : List Org
  pub memberships : List Membership
  pub keys : List KeyRow
  pub alerts : List Row
  pub next_user : ℕ
  pub next_org : ℕ
  pub next_key : ℕ

abbrev user_of : Option UserRow → Option User
user_of none = none
user_of (some r) = some r.user

-- GetUserByUPN
unfoldable pub get_user_by_upn : Text → Tables → Option User
get_user_by_upn upn t = user_of (find (λ r. r.user.upn == upn) t.users)

-- GetUserByID
unfoldable pub get_user_by_id : ℕ → Tables → Option User
get_user_by_id id t = user_of (find (λ r. r.user.id == id) t.users)

abbrev pub has_identity : Text → Text → UserRow → Bool
has_identity provider subject r = r.sso_provider == provider && r.sso_subject == subject

-- GetUserBySSO
unfoldable pub get_user_by_sso : Text → Text → Tables → Option User
get_user_by_sso provider subject t = user_of (find (has_identity provider subject) t.users)

abbrev or_user : Text → Text
or_user role = if role == [] then text "user" else role

-- The INSERT into `users`, by the row with the id left open.
unfoldable pub insert_user : (ℕ → UserRow) → Tables → Option (Tables × ℕ)
insert_user row t =
    let r = row t.next_user in
    if any (λ q. q.user.upn == r.user.upn) t.users
    then none
    else some (record t { users = t.users ++ r ∷ []; next_user = t.next_user + 1 }, t.next_user)

-- CreateUser; is_superadmin is 0 by default.
unfoldable pub create_user : User → Tables → Option (Tables × ℕ)
create_user u = insert_user (λ id. record {
  user = record u { id = id; role = or_user u.role; is_superadmin = false };
  sso_provider = [];
  sso_subject = [];
})

-- CreateSSOUser
unfoldable pub create_sso_user : Text → Text → Text → Text → Text → Tables → Option (Tables × ℕ)
create_sso_user upn email provider subject role = insert_user (λ id. record {
  user = record {
    id = id;
    upn = if upn == [] then subject else upn;
    email = email;
    password_hash = [];
    role = or_user role;
    enabled = true;
    token_version = 0;
    is_superadmin = false;
  };
  sso_provider = provider;
  sso_subject = subject;
})

-- UPDATE users … WHERE id = ?
abbrev update_user : ℕ → (User → User) → Tables → Tables
update_user id f t = record t {
  users = map (λ r. if r.user.id == id then record r { user = f r.user } else r) t.users;
}

-- BumpTokenVersion
unfoldable pub bump_token_version : ℕ → Tables → Tables
bump_token_version id = update_user id (λ u. record u { token_version = u.token_version + 1 })

-- MakeSuperadmin
unfoldable pub make_superadmin : ℕ → Tables → Tables
make_superadmin id = update_user id (λ u. record u { is_superadmin = true })

-- CountUsers
unfoldable pub count_users : Tables → ℕ
count_users t = length t.users

-- CreateOrg
unfoldable pub create_org : Text → Text → Tables → Option (Tables × ℕ)
create_org slug name t =
    if any (λ o. o.slug == slug) t.orgs
    then none
    else some (
      record t {
        orgs = t.orgs ++ record { id = t.next_org; slug = slug; name = name } ∷ [];
        next_org = t.next_org + 1;
      },
      t.next_org,
    )

-- GetOrgBySlug
unfoldable pub get_org_by_slug : Text → Tables → Option Org
get_org_by_slug slug t = find (λ o. o.slug == slug) t.orgs

-- ListOrgs
unfoldable pub list_orgs : Tables → List Org
list_orgs t = t.orgs

-- EnsureDefaultOrg
unfoldable pub ensure_default_org : Tables → Option (Tables × ℕ)
ensure_default_org t = elim (get_org_by_slug (text "default") t) [
  | some o ↦ some (t, o.id)
  | none ↦ create_org (text "default") (text "AlertHub") t
]

abbrev pub is_member : ℕ → ℕ → Membership → Bool
is_member org user m = m.org_id == org && m.user_id == user

-- AddMembership: `ON CONFLICT DO NOTHING`.
unfoldable pub add_membership : ℕ → ℕ → Text → Tables → Tables
add_membership org user role t = if any (is_member org user) t.memberships then t else record t {
  memberships = t.memberships ++ record { org_id = org; user_id = user; base_role = role } ∷ [];
}

-- GetMembershipRole
unfoldable pub get_membership_role : ℕ → ℕ → Tables → Option Text
get_membership_role org user t = elim (find (is_member org user) t.memberships) [
  | none ↦ none
  | some m ↦ some m.base_role
]

-- OrgsForUser
unfoldable pub orgs_for_user : ℕ → Tables → List Org
orgs_for_user user t = select (λ o. any (is_member o.id user) t.memberships) t.orgs

abbrev pub joined : ℕ → Tables → Bool
joined user t = any (λ m. m.user_id == user) t.memberships

-- BackfillMemberships; the rows that it inserts are of users without any.
unfoldable pub backfill_memberships : ℕ → Tables → Tables
backfill_memberships org t = record t {
  memberships =
      t.memberships
      ++ map (λ r. record { org_id = org; user_id = r.user.id; base_role = r.user.role })
          (select (λ r. not (joined r.user.id t)) t.users);
}

-- BackfillOrgID
unfoldable pub backfill_org_id : ℕ → Tables → Tables
backfill_org_id org t = record t {
  alerts = map (λ a. if a.org_id == 0 then record a { org_id = org } else a) t.alerts;
  keys =
      map
        (λ k.
          if k.account.org_id == 0
          then record k { account = record (k.account) { org_id = org } }
          else k)
        t.keys;
}

-- CreateServiceAccount
unfoldable pub create_service_account : Text → Text → Text → ℕ → Tables → Option (Tables × ℕ)
create_service_account name hash scopes org t =
    if any (λ k. k.token_hash == hash) t.keys
    then none
    else some (
      record t {
        keys =
            t.keys
            ++ record {
              account = record { id = t.next_key; org_id = org; scopes = scopes; disabled = false };
              name = name;
              token_hash = hash;
            }
              ∷ [];
        next_key = t.next_key + 1;
      },
      t.next_key,
    )

-- ListServiceAccounts
unfoldable pub list_service_accounts : ℕ → Tables → List KeyRow
list_service_accounts org t = select (λ k. k.account.org_id == org) t.keys

-- GetServiceAccountByTokenHash
unfoldable pub get_service_account_by_token_hash : Text → Tables → Option ServiceAccount
get_service_account_by_token_hash hash t = elim (find (λ k. k.token_hash == hash) t.keys) [
  | none ↦ none
  | some k ↦ some k.account
]

-- DeleteServiceAccount
unfoldable pub delete_service_account : ℕ → ℕ → Tables → Tables
delete_service_account id org t = record t {
  keys = select (λ k. not (k.account.id == id && k.account.org_id == org)) t.keys;
}

-- What the gates of the API read of the tables.
unfoldable pub directory_of : Directory → Tables → Directory
directory_of d t = record d {
  user_by_id = λ i. get_user_by_id i t;
  membership_role = λ org i. get_membership_role org i t;
  account_by_hash = λ h. get_service_account_by_token_hash h t;
}
