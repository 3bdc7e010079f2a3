-- ===== src/Accounts/Tests.antt =====
-- A fresh database that is started twice, and a key of its organisation.
use aleart_hub.Base.{
  ℕ, ◌≡◌, ◌≢◌, refl, none, some, Option, [], ◌∷◌, arith, Text, text, text_eq, trim_space, skip,
  space_len, space_len_back, All,
}
use aleart_hub.Access.{Directory, Request, served, forbidden}
use aleart_hub.Access.Tenant.{IsScope}
use aleart_hub.Accounts.{Tables}
use aleart_hub.Accounts.Admin.{Office, KeyReq, key_created}
use aleart_hub.Accounts.Boot.{start_up}
use aleart_hub.Accounts.Boot.Settled.{all_taken, IsSettled, start_up_settles}
use aleart_hub.Accounts.Keys.{created, answer, after_delete, created_key_life}

abbrev pub empty : Tables
empty = record {
  users = [];
  orgs = [];
  memberships = [];
  keys = [];
  alerts = [];
  next_user = 1;
  next_org = 1;
  next_key = 1;
}

abbrev hash : Text → Option Text
hash p = some p

start_up_settles_example :
    (t' : Tables) × (org : ℕ) × (start_up hash (text "admin") [] (text "r") all_taken empty
      ≡ some (t', org))
    × IsSettled t'
    × ((user' pass' random' : Text)
        → start_up hash user' pass' random' all_taken t' ≡ some (t', org))
start_up_settles_example =
    start_up_settles hash (text "admin") [] (text "r") (text "r") empty (omega arith, tt) refl

abbrev directory : Directory
directory = record {
  admin_token = [];
  default_org_id = 1;
  verify_access = λ raw. none;
  user_by_id = λ i. none;
  membership_role = λ org i. none;
  account_by_hash = λ h. none;
  sha256hex = λ s. s;
}

abbrev office : Office
office = record { tables = empty; trail = [] }

abbrev wanted : KeyReq
wanted = record { name = text "cap"; scopes = [] }

abbrev request : Request
request = record { authorization = text "Bearer ahk_k1"; cookie = none; x_org_id = [] }

ingest_ok : All IsScope (text "alerts:ingest" ∷ [])
unfolding trim_space skip space_len space_len_back
ingest_ok = ((ground arith, refl), tt)

token_ok : trim_space (text "ahk_k1") ≡ text "ahk_k1"
unfolding trim_space skip space_len space_len_back
token_ok = refl

named_ok : trim_space (text "cap") ≢ []
unfolding trim_space skip space_len space_len_back
named_ok e = ground arith

created_key_life_example :
    ((created directory (text "k1") wanted 4 office).1
      ≡ key_created 1 (text "cap") (text "alerts:ingest" ∷ []) (text "ahk_k1"))
    × (answer directory
          (text "k1")
          wanted
          4
          office
          (text "alerts:ingest")
          request
          (created directory (text "k1") wanted 4 office).0.tables
        ≡ served none (some 4))
    × (answer directory
          (text "k1")
          wanted
          4
          office
          (text "alerts:ingest")
          request
          (after_delete directory (text "k1") wanted 4 office 4)
        ≡ forbidden)
    × (answer directory
          (text "k1")
          wanted
          4
          office
          (text "alerts:ingest")
          request
          (after_delete directory (text "k1") wanted 4 office 5)
        ≡ answer directory
            (text "k1")
            wanted
            4
            office
            (text "alerts:ingest")
            request
            (created directory (text "k1") wanted 4 office).0.tables)
created_key_life_example =
    created_key_life directory (text "k1") wanted 4 office (text "alerts:ingest") request 5
      (λ e. omega arith) named_ok refl ingest_ok token_ok refl
