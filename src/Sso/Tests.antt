-- ===== src/Sso/Tests.antt =====
-- A first sign-on over OIDC.
use aleart_hub.Base.{
  find, ◌&&◌, ◌==◌, text_eq, ◌≡◌, inl, refl, true, false, none, some, [], arith, text, no_keys,
  text_eq,
}
use aleart_hub.Access.{User}
use aleart_hub.Accounts.{
  UserRow, get_user_by_sso, create_sso_user, insert_user, get_user_by_id, add_membership,
}
use aleart_hub.Accounts.Tests.{empty}
use aleart_hub.Sso.{
  Provider, Identity, IdToken, SamlConfig, Portal, CallbackReq, to_panel, identity_of, exchange,
  ensure_sso_user, issue_tokens, admit, handle_oidc_callback,
}
use aleart_hub.Sso.Users.{ensure_sso_user_lem}
use aleart_hub.Sso.Callback.{Passed, handle_oidc_callback-Passed}

abbrev token : IdToken
token = record {
  sub = text "u1";
  email = text "a@b";
  name = text "Ann";
  preferred_username = [];
  groups = [];
}

abbrev saml : SamlConfig
saml = record { attr_username = []; attr_email = []; attr_name = []; attr_groups = [] }

abbrev provider : Provider
provider = record {
  oidc_enabled = true;
  saml_enabled = false;
  saml_config = saml;
  default_role = text "viewer";
  default_org_id = 1;
  auth_code_url = λ s n v. s;
  redeem_code = λ c v. some (text "jwt");
  verify_id_token = λ raw. some (text "n1", some token);
  parse_response = λ f. none;
  sign_token = λ s c. some s;
}

abbrev ann : User
ann = record {
  id = 1;
  upn = text "a@b";
  email = text "a@b";
  password_hash = [];
  role = text "viewer";
  enabled = true;
  token_version = 0;
  is_superadmin = false;
}

abbrev ident : Identity
ident = identity_of token

ann_made : (ensure_sso_user provider ident (text "oidc") empty).1 ≡ some ann
unfolding ensure_sso_user get_user_by_sso create_sso_user insert_user get_user_by_id add_membership
    identity_of
ann_made = refl

ensure_sso_user_lem_example :
    (r : UserRow) × (r.user ≡ ann)
    × (find
          (λ x. x.sso_provider == text "oidc" && x.sso_subject == ident.subject)
          (ensure_sso_user provider ident (text "oidc") empty).0.users
        ≡ some r)
    × (ensure_sso_user provider ident
          (text "oidc")
          (ensure_sso_user provider ident (text "oidc") empty).0
        ≡ ((ensure_sso_user provider ident (text "oidc") empty).0, some ann))
    × (get_user_by_sso
          (text "saml")
          (text "u1")
          (ensure_sso_user provider ident (text "oidc") empty).0
        ≡ get_user_by_sso (text "saml") (text "u1") empty)
ensure_sso_user_lem_example =
    ensure_sso_user_lem provider ident (text "oidc") (text "saml") (text "u1")
      (inl (λ e. ground arith)) empty ann tt ann_made

abbrev portal : Portal
portal = record { tables = empty; codes = no_keys; trail = [] }

abbrev request : CallbackReq
request = record {
  error = [];
  code = text "c";
  state = text "st";
  state_cookie = text "st";
  nonce_cookie = text "n1";
  verifier_cookie = text "v";
}

sent_on : (handle_oidc_callback provider 10 (text "once") request portal).1 ≡ to_panel (text "once")
unfolding handle_oidc_callback exchange admit ensure_sso_user get_user_by_sso create_sso_user
    insert_user get_user_by_id add_membership identity_of issue_tokens
sent_on = refl

handle_oidc_callback-Passed_example :
    Passed provider 10
      (text "once")
      request
      (text "once")
      portal
      (handle_oidc_callback provider 10 (text "once") request portal).0
handle_oidc_callback-Passed_example =
    handle_oidc_callback-Passed provider 10 (text "once") request portal (text "once") sent_on
