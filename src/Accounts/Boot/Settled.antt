-- ===== src/Accounts/Boot/Settled.antt =====
-- What a start of the server leaves in the tables (server/main.go, store/orgs.go).
use aleart_hub.Base.{
  ℕ, ◌+◌, ◌≡◌, ◌≢◌, ◌≤◌, ◌<◌, refl, sym, ◌∙◌, ap, subst, Bool, true, false, not, Option, some, List,
  [], ◌∷◌, ◌++◌, arith, any, find, select, All, map, if◌then◌else◌, ◌==◌, nat_eq, nat_eqb_refl,
  text_eq, suc, ltb, Text, text, append-nil, any-append, Option-cases, Bool-cases, find-none,
  find-append, found-All, inl, inr, length,
}
use aleart_hub.Accounts.Boot.{Takes, first_admin, seed_admin, start_up}
use aleart_hub.Server.{Row}
use aleart_hub.Accounts.{
  UserRow, Org, Membership, KeyRow, Tables, count_users, create_user, insert_user, make_superadmin,
  get_org_by_slug, ensure_default_org, create_org, joined, backfill_memberships, backfill_org_id,
}

-- The ids count from 1.
abbrev pub IsNumbered : Tables → Type 0
IsNumbered t = (1 ≤ t.next_org) × All (λ o. 1 ≤ o.id) t.orgs

-- Every user belongs to an organisation, and no alert and no key to none.
abbrev pub IsSettled : Tables → Type 0
IsSettled t =
    All (λ r. joined r.user.id t ≡ true) t.users
    × All (λ a. a.org_id ≢ 0) t.alerts
    × All (λ k. k.account.org_id ≢ 0) t.keys

-- What an organisation made by default is found by.
abbrev IsDefault : ℕ → Tables → Type 0
IsDefault org t = (o : Org) × (get_org_by_slug (text "default") t ≡ some o) × (o.id ≡ org)

pub record Seeded (t t' : Tables) : Type 0 where
  pub some_user : 0 < length t'.users
  pub numbered : IsNumbered t → IsNumbered t'

length-map {ℓ κ} :
    {A : Type ℓ} {B : Type κ} (f : A → B) (xs : List A) → length (map f xs) ≡ length xs
length-map f [] = refl
length-map f (x ∷ xs) = ap suc (length-map f xs)

no_users : (us : List UserRow) → ltb 0 (length us) ≡ false → us ≡ []
no_users [] h = refl
no_users (u ∷ us) h = absurd (ground arith)

-- The tables with the first admin.
abbrev admitted : Text → Text → Tables → Tables
admitted user hash t = record t {
  users =
      record {
        user = record (first_admin user hash) { id = t.next_user; is_superadmin = true };
        sso_provider = [];
        sso_subject = [];
      }
      ∷ [];
  next_user = t.next_user + 1;
}

seeded_lem :
    (hash_password : Text → Option Text) (user pass random hash : Text) (t : Tables)
    → hash_password (if pass == [] then random else pass) ≡ some hash
    → (t' : Tables) × (seed_admin hash_password user pass random true t ≡ (t', true)) × Seeded t t'
unfolding seed_admin count_users create_user insert_user make_superadmin
seeded_lem hash_password user pass random hash t h = elim (Bool-cases (ltb 0 (length t.users))) [
  | inl known ↦ (t, rw known refl, record { some_user = ground arith; numbered = λ n. n })
  | inr fresh ↦ (
    admitted user hash t,
    rw
        (
          no_users t.users fresh,
          h,
          create_user,
          insert_user,
          no_users t.users fresh,
          make_superadmin,
          nat_eqb_refl t.next_user,
        )
        refl,
    record { some_user = omega arith; numbered = λ n. n },
  )
]

abbrev default_org : ℕ → Org
default_org id = record { id = id; slug = text "default"; name = text "AlertHub" }

ensured_lem :
    (t : Tables)
    → IsNumbered t
    → (t' : Tables) × (org : ℕ) × (ensure_default_org t ≡ some (t', org))
      × (1 ≤ org)
      × IsDefault org t'
      × (t'.users ≡ t.users)
unfolding ensure_default_org get_org_by_slug create_org
ensured_lem t n = elim (Option-cases (find (λ o. o.slug == text "default") t.orgs)) [
  | inl missing ↦
      let absent = find-none (λ o. o.slug == text "default") t.orgs missing in
      (
        record t { orgs = t.orgs ++ default_org t.next_org ∷ []; next_org = t.next_org + 1 },
        t.next_org,
        rw (ensure_default_org, get_org_by_slug, missing, create_org, absent) refl,
        n.0,
        (
          default_org t.next_org,
          find-append (λ o. o.slug == text "default") t.orgs (default_org t.next_org ∷ []) absent,
          refl,
        ),
        refl,
      )
  | inr (o, found) ↦ (
    t,
    o.id,
    rw (ensure_default_org, get_org_by_slug, found) refl,
    found-All (λ o. 1 ≤ o.id) _ t.orgs o n.1 found,
    (o, found, refl),
    refl,
  )
]

All-weaken {ℓ} :
    {A : Type ℓ} (P Q : A → Type 0) (xs : List A) → ((x : A) → P x → Q x) → All P xs → All Q xs
All-weaken P Q [] f h = tt
All-weaken P Q (x ∷ xs) f h = (f x h.0, All-weaken P Q xs f h.1)

module _ (org : ℕ) (ms : List Membership) where
  abbrev is_joined : UserRow → List Membership → Bool
  is_joined r ns = any (λ m. m.user_id == r.user.id) ns

  abbrev given : UserRow → Membership
  given r = record { org_id = org; user_id = r.user.id; base_role = r.user.role }

  abbrev filled : List UserRow → List Membership
  filled us = map given (select (λ r. not (is_joined r ms)) us)

  kept :
      (f : Membership → Bool) (ns : List Membership) (m : Membership) (rest : List Membership)
      → any f (ns ++ rest) ≡ true
      → any f (ns ++ m ∷ rest) ≡ true
  kept f [] m rest h = ground arith
  kept f (x ∷ ns) m rest h = ground (arith, kept f ns m rest)

  joined-filled : (us : List UserRow) → All (λ r. is_joined r (ms ++ filled us) ≡ true) us
  joined-filled [] = tt
  joined-filled (u ∷ us) = elim (Bool-cases (is_joined u ms)) [
    | inl here ↦ (
      rw (here, any-append (λ m. m.user_id == u.user.id) ms (filled us), here) refl,
      All-weaken _ _ us (λ r h. rw here h) (joined-filled us),
    )
    | inr lone ↦ (
      rw (lone, any-append (λ m. m.user_id == u.user.id) ms (given u ∷ filled us), lone)
          (rw (nat_eqb_refl u.user.id) refl),
      All-weaken _ _ us
          (λ r h. rw lone (kept (λ m. m.user_id == r.user.id) ms (given u) (filled us) h))
          (joined-filled us),
    )
  ]

no_one_left :
    (t : Tables) (us : List UserRow)
    → All (λ r. joined r.user.id t ≡ true) us
    → select (λ r. not (joined r.user.id t)) us ≡ []
no_one_left t [] h = refl
no_one_left t (u ∷ us) h = rw (h.0) (no_one_left t us h.1)

with_org-nonzero :
    (org : ℕ) (rows : List Row)
    → 1 ≤ org
    → All
        (λ a. a.org_id ≢ 0)
        (map (λ a. if a.org_id == 0 then record a { org_id = org } else a) rows)
with_org-nonzero org [] h = tt
with_org-nonzero org (a ∷ rows) h = (ground arith, with_org-nonzero org rows h)

keyed-nonzero :
    (org : ℕ) (ks : List KeyRow)
    → 1 ≤ org
    → All
        (λ k. k.account.org_id ≢ 0)
        (map
          (λ k.
            if k.account.org_id == 0
            then record k { account = record (k.account) { org_id = org } }
            else k)
          ks)
keyed-nonzero org [] h = tt
keyed-nonzero org (k ∷ ks) h = (ground arith, keyed-nonzero org ks h)

map-same {ℓ} :
    {A : Type ℓ} (q : A → Bool) (f : A → A) (xs : List A)
    → All (λ x. q x ≡ false) xs
    → map (λ x. if q x then f x else x) xs ≡ xs
map-same q f [] h = refl
map-same q f (x ∷ xs) h = rw (h.0, map-same q f xs h.1) refl

settled_still :
    (org : ℕ) (t : Tables) → IsSettled t → backfill_org_id org (backfill_memberships org t) ≡ t
unfolding backfill_org_id backfill_memberships
settled_still org t (users, alerts, keys) =
    rw
      (
        no_one_left t t.users users,
        append-nil t.memberships,
        map-same (λ a. a.org_id == 0) (λ a. record a { org_id = org }) t.alerts
            (All-weaken _ _ t.alerts (λ a h. ground arith) alerts),
        map-same (λ k. k.account.org_id == 0)
            (λ k. record k { account = record (k.account) { org_id = org } }) t.keys
            (All-weaken _ _ t.keys (λ k h. ground arith) keys),
      )
      refl

quiet :
    (hash_password : Text → Option Text) (user pass random : Text) (t : Tables)
    → 0 < length t.users
    → seed_admin hash_password user pass random true t ≡ (t, true)
unfolding seed_admin count_users
quiet hash_password user pass random t h = ground arith

abbrev filled_in : ℕ → Tables → Tables
filled_in org t = backfill_org_id org (backfill_memberships org t)

filled_in-IsSettled : (org : ℕ) (t : Tables) → 1 ≤ org → IsSettled (filled_in org t)
unfolding backfill_org_id backfill_memberships
filled_in-IsSettled org t h = (
  joined-filled org t.memberships t.users,
  with_org-nonzero org t.alerts h,
  keyed-nonzero org t.keys h,
)

filled_in-kept :
    (org : ℕ) (t : Tables)
    → ((filled_in org t).users ≡ t.users)
      × (get_org_by_slug (text "default") (filled_in org t) ≡ get_org_by_slug (text "default") t)
unfolding backfill_org_id backfill_memberships get_org_by_slug
filled_in-kept org t = (refl, refl)

-- The database takes every statement.
abbrev pub all_taken : Takes
all_taken = record { superadmin = true; memberships = true; org_ids = true }

started_again :
    (hash_password : Text → Option Text) (user pass random : Text) (t : Tables) (o : Org)
    → 0 < length t.users
    → get_org_by_slug (text "default") t ≡ some o
    → IsSettled t
    → start_up hash_password user pass random all_taken t ≡ some (t, o.id)
unfolding start_up ensure_default_org
started_again hash_password user pass random t o h found settled =
    let same = quiet hash_password user pass random t h in
    rw (start_up, same, ensure_default_org, found, same, settled_still o.id t settled) refl

-- A start on tables whose ids count from 1, where the password can be hashed and the database takes
-- every statement, goes through, and leaves every user in an organisation and every alert and key
-- with one; a second such start, with whatever names and passwords, changes nothing and finds the same default
-- organisation.
pub start_up_settles :
    (hash_password : Text → Option Text) (user pass random hash : Text) (t : Tables)
    → IsNumbered t
    → hash_password (if pass == [] then random else pass) ≡ some hash
    → (t' : Tables) × (org : ℕ) × (start_up hash_password user pass random all_taken t
        ≡ some (t', org))
      × IsSettled t'
      × ((user' pass' random' : Text)
          → start_up hash_password user' pass' random' all_taken t' ≡ some (t', org))
unfolding start_up
start_up_settles hash_password user pass random hash t n h =
    let (t1, seeds, seed) = seeded_lem hash_password user pass random hash t h in
    let (t2, org, ensures, positive, (o, found, named), same_users) =
      ensured_lem t1 (seed.numbered n) in
    let kept = filled_in-kept org t2 in
    let settled = filled_in-IsSettled org t2 positive in
    (
      filled_in org t2,
      org,
      rw (start_up, seeds, ensures) refl,
      settled,
      λ user' pass' random'.
          started_again hash_password user' pass' random' (filled_in org t2) o
            (subst (λ us. 0 < length us) (sym (kept.0 ∙ same_users)) seed.some_user)
            (kept.1 ∙ found) settled
          ∙ ap (λ i. some (filled_in org t2, i)) named,
    )
