-- ===== src/Accounts/Admin.antt =====
-- The endpoints of server/internal/api/serviceaccount_handlers.go and orgs_handlers.go, behind their
-- gates. A body that does not decode is `none`; `claims` is what the context holds, `org` what orgFor
-- gives; randomness is an argument.
use aleart_hub.Base.{
  ℕ, Bool, true, false, not, Option, none, some, List, [], ◌∷◌, ◌++◌, map, select, if◌then◌else◌,
  ◌==◌, nat_eq, text_eq, Text, text, itoa, join, trim_space,
}
use aleart_hub.Access.{Claims, split_commas, comma}
use aleart_hub.Accounts.{
  Org, KeyRow, Tables, get_user_by_id, create_org, list_orgs, orgs_for_user, add_membership,
  create_service_account, list_service_accounts, delete_service_account,
}

-- A line of the audit trail.
pub record Line : Type 0 where
  pub org_id : ℕ
  pub action : Text
  pub target_id : Text
  pub detail : Text

pub record Office : Type 0 where
  pub tables : Tables
  pub trail : List Line

pub record KeyReq : Type 0 where
  pub name : Text
  pub scopes : List Text

pub record OrgReq : Type 0 where
  pub slug : Text
  pub name : Text

pub record SaDto : Type 0 where
  pub id : ℕ
  pub name : Text
  pub scopes : List Text
  pub disabled : Bool

pub data AdminReply : Type 0 where
  bad_json name_required slug_required create_failed super_only no_content : AdminReply
  keys_shown : List SaDto → AdminReply
  key_created : ℕ → Text → List Text → Text → AdminReply
  orgs_shown : List Org → AdminReply
  org_created : Org → AdminReply

-- splitScopes
unfoldable pub split_scopes : Text → List Text
split_scopes s = select (λ p. not (p == [])) (map trim_space (split_commas s))

unfoldable pub to_sa_dto : KeyRow → SaDto
to_sa_dto k = record {
  id = k.account.id;
  name = k.name;
  scopes = split_scopes k.account.scopes;
  disabled = k.account.disabled;
}

-- handleServiceAccounts, GET.
unfoldable pub show_service_accounts : ℕ → Office → AdminReply
show_service_accounts org s = keys_shown (map to_sa_dto (list_service_accounts org s.tables))

abbrev pub or_ingest : List Text → List Text
or_ingest [] = text "alerts:ingest" ∷ []
or_ingest (sc ∷ scs) = sc ∷ scs

-- handleServiceAccounts, POST.
unfoldable pub add_service_account :
    (Text → Text) → Text → Option KeyReq → ℕ → Office → Office × AdminReply
add_service_account sha256hex random none org s = (s, name_required)
add_service_account sha256hex random (some req) org s =
    if trim_space req.name == []
    then (s, name_required)
    else let scopes = or_ingest req.scopes in
      let token = text "ahk_" ++ random in
      elim (create_service_account req.name (sha256hex token) (join comma scopes) org s.tables) [
        | none ↦ (s, create_failed)
        | some (t, id) ↦ (
          record {
            tables = t;
            trail =
                s.trail
                ++ record {
                  org_id = org;
                  action = text "service_account.create";
                  target_id = itoa id;
                  detail = req.name ++ text " scopes=" ++ join comma scopes;
                }
                  ∷ [];
          },
          key_created id req.name scopes token,
        )
      ]

-- handleServiceAccountDelete
unfoldable pub handle_service_account_delete : Option ℕ → ℕ → Office → Office × AdminReply
handle_service_account_delete none org s = (s, bad_json)
handle_service_account_delete (some id) org s = (
  record {
    tables = delete_service_account id org s.tables;
    trail =
        s.trail
        ++ record {
          org_id = org;
          action = text "service_account.delete";
          target_id = itoa id;
          detail = text "revoked";
        }
          ∷ [];
  },
  no_content,
)

-- isSuper
unfoldable pub is_super : Option Claims → Tables → Bool
is_super none t = true
is_super (some c) t = elim (get_user_by_id c.user_id t) [ none ↦ false | some u ↦ u.is_superadmin ]

-- handleOrgs, GET.
unfoldable pub show_orgs : Option Claims → Office → AdminReply
show_orgs none s = orgs_shown (list_orgs s.tables)
show_orgs (some c) s =
    if is_super (some c) s.tables
    then orgs_shown (list_orgs s.tables)
    else orgs_shown (orgs_for_user c.user_id s.tables)

abbrev own : Option Claims → ℕ → Tables → Tables
own none id t = t
own (some c) id t = add_membership id c.user_id (text "owner") t

-- handleOrgs, POST.
unfoldable pub add_org : Option Claims → Option OrgReq → Office → Office × AdminReply
add_org claims none s = (s, if is_super claims s.tables then slug_required else super_only)
add_org claims (some req) s =
    if not (is_super claims s.tables)
    then (s, super_only)
    else if trim_space req.slug == []
    then (s, slug_required)
    else let name = if req.name == [] then req.slug else req.name in
      elim (create_org req.slug name s.tables) [
        | none ↦ (s, create_failed)
        | some (t, id) ↦ (
          record {
            tables = own claims id t;
            trail =
                s.trail
                ++ record {
                  org_id = id;
                  action = text "org.create";
                  target_id = itoa id;
                  detail = req.slug;
                }
                  ∷ [];
          },
          org_created (record { id = id; slug = req.slug; name = name }),
        )
      ]
