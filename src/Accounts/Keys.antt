-- ===== src/Accounts/Keys.antt =====
-- The life of an API key: created, used behind requireScope, deleted
-- (api/serviceaccount_handlers.go, store/service_accounts.go, api/scope.go).
use aleart_hub.Base.{
  ℕ, ◌≡◌, ◌≢◌, refl, sym, ◌∙◌, ap, Bool, true, false, not, ◌&&◌, ◌||◌, Option, none, some, List, [],
  ◌∷◌, ◌++◌, arith, any, find, find-append, none_found, select, select-append, append-nil, All,
  if◌then◌else◌, ◌==◌, nat_eq, text_eq, text_eqb_iff, Text, text, join, trim_space,
}
use aleart_hub.Access.{
  Request, Directory, Gate, served, forbidden, bearer, comma, require_scope, scope_allowed,
}
use aleart_hub.Access.Tenant.{IsScope, scope_allowed-join}
use aleart_hub.Accounts.{
  KeyRow, Tables, create_service_account, delete_service_account, get_service_account_by_token_hash,
  directory_of,
}
use aleart_hub.Accounts.Admin.{
  Office, KeyReq, AdminReply, key_created, or_ingest, add_service_account,
  handle_service_account_delete,
}

find_new :
    (hash : Text) (ks : List KeyRow) (k : KeyRow)
    → any (λ k. k.token_hash == hash) ks ≡ false
    → k.token_hash ≡ hash
    → find (λ k. k.token_hash == hash) (ks ++ k ∷ []) ≡ some k
find_new hash ks k h e =
    find-append (λ k. k.token_hash == hash) ks (k ∷ []) h
    ∙ rw ((text_eqb_iff k.token_hash hash).1 e) refl

select-append-kept :
    (p : KeyRow → Bool) (ks : List KeyRow) (k : KeyRow)
    → p k ≡ true
    → select p (ks ++ k ∷ []) ≡ select p ks ++ k ∷ []
select-append-kept p ks k h = select-append p ks (k ∷ []) ∙ ap (λ r. select p ks ++ r) (rw h refl)

select-append-gone :
    (p : KeyRow → Bool) (ks : List KeyRow) (k : KeyRow)
    → p k ≡ false
    → select p (ks ++ k ∷ []) ≡ select p ks
select-append-gone p ks k h =
    select-append p ks (k ∷ []) ∙ ap (λ r. select p ks ++ r) (rw h refl) ∙ append-nil (select p ks)

any_fewer :
    (hash : Text) (ks : List KeyRow) (p : KeyRow → Bool)
    → any (λ k. k.token_hash == hash) ks ≡ false
    → any (λ k. k.token_hash == hash) (select p ks) ≡ false
any_fewer hash [] p h = refl
any_fewer hash (x ∷ ks) p h = ground (arith, any_fewer hash ks p)

-- What requireScope answers to a key, by the row that its hash finds.
require_scope_keyed :
    (d : Directory) (want token : Text) (r : Request)
    → r.authorization ≡ text "Bearer " ++ text "ahk_" ++ token
    → trim_space (text "ahk_" ++ token) ≡ text "ahk_" ++ token
    → require_scope d want r ≡ elim (d.account_by_hash (d.sha256hex (text "ahk_" ++ token))) [
      | none ↦ forbidden
      | some sa ↦
          if not sa.disabled && scope_allowed sa.scopes want
          then served none (some sa.org_id)
          else forbidden
    ]
unfolding require_scope bearer
require_scope_keyed d want token r e trimmed = rw (e, trimmed) refl

allowed :
    (want : Text) (ss : List Text)
    → All IsScope (or_ingest ss)
    → scope_allowed (join comma (or_ingest ss)) want
      ≡ any (λ sc. sc == want || sc == text "*") (or_ingest ss)
allowed want [] h = scope_allowed-join want (text "alerts:ingest") [] h
allowed want (s ∷ ss) h = scope_allowed-join want s ss h

module _ (d : Directory) (random : Text) (req : KeyReq) (org : ℕ) (s : Office) where
  abbrev pub token : Text
  token = text "ahk_" ++ random

  abbrev pub created : Office × AdminReply
  created = add_service_account d.sha256hex random (some req) org s

  -- The row that the creation adds.
  abbrev pub row : KeyRow
  row = record {
    account = record {
      id = s.tables.next_key;
      org_id = org;
      scopes = join comma (or_ingest req.scopes);
      disabled = false;
    };
    name = req.name;
    token_hash = d.sha256hex token;
  }

  abbrev pub IsNew : Type 0
  IsNew = any (λ k. k.token_hash == d.sha256hex token) s.tables.keys ≡ false

  created_lem :
      (trim_space req.name == []) ≡ false
      → IsNew
      → (created.1 ≡ key_created s.tables.next_key req.name (or_ingest req.scopes) token)
        × (created.0.tables.keys ≡ s.tables.keys ++ row ∷ [])
  unfolding add_service_account create_service_account
  created_lem named new = rw (named, new) (refl, refl)

  abbrev pub after_delete : ℕ → Tables
  after_delete other =
      (handle_service_account_delete (some s.tables.next_key) other created.0).0.tables

  abbrev pub answer : (want : Text) (r : Request) (t : Tables) → Gate
  answer want r t = require_scope (directory_of d t) want r

  abbrev found : Tables → Option KeyRow
  found t = find (λ k. k.token_hash == d.sha256hex token) t.keys

  abbrev stays : ℕ → KeyRow → Bool
  stays other k = not (k.account.id == s.tables.next_key && k.account.org_id == other)

  found_created : (trim_space req.name == []) ≡ false → IsNew → found created.0.tables ≡ some row
  found_created named new =
      rw ((created_lem named new).1) (find_new (d.sha256hex token) s.tables.keys row new refl)

  found_deleted : (trim_space req.name == []) ≡ false → IsNew → found (after_delete org) ≡ none
  unfolding handle_service_account_delete delete_service_account
  found_deleted named new =
      rw
        ((created_lem named new).1, select-append-gone (stays org) s.tables.keys row (ground arith))
        (none_found (λ k. k.token_hash == d.sha256hex token) (select (stays org) s.tables.keys)
          (any_fewer (d.sha256hex token) s.tables.keys (stays org) new))

  found_kept :
      (other : ℕ)
      → other ≢ org
      → (trim_space req.name == []) ≡ false
      → IsNew
      → found (after_delete other) ≡ some row
  unfolding handle_service_account_delete delete_service_account
  found_kept other differs named new =
      rw
        (
          (created_lem named new).1,
          select-append-kept (stays other) s.tables.keys row (ground arith),
        )
        (find_new (d.sha256hex token) (select (stays other) s.tables.keys) row
          (any_fewer (d.sha256hex token) s.tables.keys (stays other) new) refl)

  module _ (want : Text) (r : Request) where
    answered :
        (t : Tables) (o : Option KeyRow)
        → r.authorization ≡ text "Bearer " ++ token
        → trim_space token ≡ token
        → find (λ k. k.token_hash == d.sha256hex token) t.keys ≡ o
        → answer want r t ≡ elim o [
          | none ↦ forbidden
          | some k ↦
              if not k.account.disabled && scope_allowed k.account.scopes want
              then served none (some k.account.org_id)
              else forbidden
        ]
    unfolding directory_of get_service_account_by_token_hash
    answered t none e trimmed found =
        require_scope_keyed (directory_of d t) want random r e trimmed ∙ rw found refl
    answered t (some k) e trimmed found =
        require_scope_keyed (directory_of d t) want random r e trimmed ∙ rw found refl

    -- Take a key that is created with a name, under a new hash, for scopes without a comma or space
    -- around them, and a request with its token in the header. requireScope serves it, with the
    -- organisation that created the key in the context, exactly where the creation named the
    -- wanted scope or a wildcard (alerts:ingest where it named none); once that organisation
    -- deletes the key, it answers forbidden; and after a deletion from another organisation it
    -- answers as before. Which organisation a handler then acts for is up to orgFor.
    pub created_key_life :
        (other : ℕ)
        → other ≢ org
        → trim_space req.name ≢ []
        → IsNew
        → All IsScope (or_ingest req.scopes)
        → trim_space token ≡ token
        → r.authorization ≡ text "Bearer " ++ token
        → (created.1 ≡ key_created s.tables.next_key req.name (or_ingest req.scopes) token)
          × (answer want r created.0.tables ≡ (
              if any (λ sc. sc == want || sc == text "*") (or_ingest req.scopes)
              then served none (some org)
              else forbidden))
          × (answer want r (after_delete org) ≡ forbidden)
          × (answer want r (after_delete other) ≡ answer want r created.0.tables)
    created_key_life other differs named new plain trimmed e =
        let full : (trim_space req.name == []) ≡ false =
          ground (arith, text_eqb_iff (trim_space req.name) []) in
        let now = answered created.0.tables (some row) e trimmed (found_created full new) in
        (
          (created_lem full new).0,
          now ∙ rw (allowed want req.scopes plain) refl,
          answered (after_delete org) none e trimmed (found_deleted full new),
          answered (after_delete other) (some row) e trimmed (found_kept other differs full new)
              ∙ sym now,
        )
