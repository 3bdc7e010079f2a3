-- ===== src/Sso/Users.antt =====
-- Whose account a single sign-on opens (ensureSSOUser of oidc_handlers.go, store/users.go).
use aleart_hub.Base.{
  ◌&&◌, ℕ, ◌+◌, ◌≡◌, ◌≢◌, ◌<◌, refl, sym, ◌∙◌, ap, subst, Bool, true, false, Option, none, some,
  List, [], ◌∷◌, ◌++◌, arith, Option-cases, Bool-cases, inl, inr, ◌⊎◌, Text, text, any, find,
  find-append, find-none, find-append_miss, some-injective, All, nat_eq, nat_eqb_refl, text_eq,
  text_eqb_iff, ◌==◌,
}
use aleart_hub.Access.{User}
use aleart_hub.Accounts.{
  UserRow, Tables, has_identity, get_user_by_sso, get_user_by_id, create_sso_user, insert_user,
  add_membership, is_member,
}
use aleart_hub.Sso.{Provider, Identity, or_else, ensure_sso_user}

-- The next id is new.
abbrev pub IsCounted : Tables → Type 0
IsCounted t = All (λ r. r.user.id < t.next_user) t.users

new_id :
    (next : ℕ) (rs : List UserRow)
    → All (λ r. r.user.id < next) rs
    → any (λ r. r.user.id == next) rs ≡ false
new_id next [] h = refl
new_id next (r ∷ rs) h = ground (arith, new_id next rs h.1)

get_user_by_id-last :
    (t t' : Tables) (r : UserRow)
    → IsCounted t
    → r.user.id ≡ t.next_user
    → t'.users ≡ t.users ++ r ∷ []
    → get_user_by_id t.next_user t' ≡ some r.user
unfolding get_user_by_id
get_user_by_id-last t t' r n e h =
    let last =
      find-append (λ q. q.user.id == t.next_user) t.users (r ∷ []) (new_id t.next_user t.users n) in
    rw (get_user_by_id, h, last, e, nat_eqb_refl t.next_user) refl

add_membership-users :
    (org user : ℕ) (role : Text) (t : Tables) → (add_membership org user role t).users ≡ t.users
unfolding add_membership
add_membership-users org user role t = elim (Bool-cases (any (is_member org user) t.memberships)) [
  | inl member ↦ rw (add_membership, member) refl
  | inr outside ↦ rw (add_membership, outside) refl
]

module _ (p : Provider) (c : Identity) (provider : Text) where
  abbrev of_identity : UserRow → Bool
  of_identity = has_identity provider c.subject

  -- The row of a new account.
  abbrev row : ℕ → UserRow
  row id = record {
    user = record {
      id = id;
      upn = or_else c.username c.subject;
      email = c.email;
      password_hash = [];
      role = or_else (or_else p.default_role (text "user")) (text "user");
      enabled = true;
      token_version = 0;
      is_superadmin = false;
    };
    sso_provider = provider;
    sso_subject = c.subject;
  }

  -- The three ways it can go.
  pub data Outcome (t t' : Tables) : Option User → Type 0 where
    known : (r : UserRow) → find of_identity t.users ≡ some r → t' ≡ t → Outcome t t' (some r.user)
    taken :
        find of_identity t.users ≡ none
        → t' ≡ t
        → any (λ q. q.user.upn == or_else c.username c.subject) t.users ≡ true
        → Outcome t t' none
    made :
        find of_identity t.users ≡ none
        → t'.users ≡ t.users ++ row t.next_user ∷ []
        → Outcome t t' (some (row t.next_user).user)

  ensured :
      (t : Tables)
      → IsCounted t
      → let (t', found) = ensure_sso_user p c provider t in Outcome t t' found
  unfolding ensure_sso_user get_user_by_sso create_sso_user insert_user
  ensured t n = elim (Option-cases (find of_identity t.users)) [
    | inr (r, found) ↦ rw (ensure_sso_user, get_user_by_sso, found) (known r found refl)
    | inl new ↦ elim (Bool-cases (any (λ q. q.user.upn == or_else c.username c.subject) t.users)) [
      | inl clash ↦
          rw (ensure_sso_user, get_user_by_sso, new, create_sso_user, insert_user, clash)
            (taken new refl clash)
      | inr free ↦
          let t1 = record t {
            users = t.users ++ row t.next_user ∷ [];
            next_user = t.next_user + 1;
          } in
          let role = or_else p.default_role (text "user") in
          let kept = add_membership-users p.default_org_id t.next_user role t1 in
          let t2 = add_membership p.default_org_id t.next_user role t1 in
          rw
            (
              ensure_sso_user,
              get_user_by_sso,
              new,
              create_sso_user,
              insert_user,
              free,
              get_user_by_id-last t t2 (row t.next_user) n refl kept,
            )
            (made new kept)
    ]
  ]

  again :
      (t : Tables) (r : UserRow)
      → find of_identity t.users ≡ some r
      → ensure_sso_user p c provider t ≡ (t, some r.user)
  unfolding ensure_sso_user get_user_by_sso
  again t r found = rw (ensure_sso_user, get_user_by_sso, found) refl

  row_is_found :
      (t t' : Tables)
      → find of_identity t.users ≡ none
      → t'.users ≡ t.users ++ row t.next_user ∷ []
      → find of_identity t'.users ≡ some (row t.next_user)
  row_is_found t t' new e =
      rw
        (
          e,
          find-append of_identity t.users (row t.next_user ∷ [])
              (find-none of_identity t.users new),
          (text_eqb_iff provider provider).1 refl,
          (text_eqb_iff c.subject c.subject).1 refl,
        )
        refl

  module _ (q s : Text) (apart : (q ≢ provider) ⊎ (s ≢ c.subject)) where
    misses : (id : ℕ) → has_identity q s (row id) ≡ false
    misses id = ground (arith, text_eqb_iff provider q, text_eqb_iff c.subject s)

    others_kept :
        (t t' : Tables)
        → t'.users ≡ t.users ++ row t.next_user ∷ []
        → get_user_by_sso q s t' ≡ get_user_by_sso q s t
    unfolding get_user_by_sso
    others_kept t t' e =
        rw
          (
            get_user_by_sso,
            e,
            find-append_miss (has_identity q s) t.users (row t.next_user) (misses t.next_user),
          )
          refl

    opened :
        (t t' : Tables) (u : User) (found : Option User)
        → Outcome t t' found
        → found ≡ some u
        → (r : UserRow) × (r.user ≡ u)
          × (find (λ x. x.sso_provider == provider && x.sso_subject == c.subject) t'.users ≡ some r)
          × (ensure_sso_user p c provider t' ≡ (t', some u))
          × (get_user_by_sso q s t' ≡ get_user_by_sso q s t)
    opened t t' u _ (known r found same) h =
        let it = some-injective r.user u h in
        (
          r,
          it,
          subst (λ x. find of_identity x.users ≡ some r) (sym same) found,
          subst (λ x. ensure_sso_user p c provider x ≡ (x, some u)) (sym same)
              (again t r found ∙ ap (λ v. (t, some v)) it),
          ap (get_user_by_sso q s) same,
        )
    opened t t' u _ (taken new same clash) h = absurd (ground arith)
    opened t t' u _ (made new e) h =
        let it = some-injective (row t.next_user).user u h in
        let found = row_is_found t t' new e in
        (
          row t.next_user,
          it,
          found,
          again t' (row t.next_user) found ∙ ap (λ v. (t', some v)) it,
          others_kept t t' e,
        )

    -- Where the database answers and ids are counted up, a sign-on that yields a user leaves an account
    -- in the table that is the first with exactly this provider and subject, and yields its user,
    -- never that of an account that only goes by the same name; signing on again yields the same user
    -- and changes nothing, and any other identity means the account that it meant before.
    pub ensure_sso_user_lem :
        (t : Tables) (u : User)
        → IsCounted t
        → (ensure_sso_user p c provider t).1 ≡ some u
        → let t' = (ensure_sso_user p c provider t).0 in
          (r : UserRow) × (r.user ≡ u)
          × (find (λ x. x.sso_provider == provider && x.sso_subject == c.subject) t'.users ≡ some r)
          × (ensure_sso_user p c provider t' ≡ (t', some u))
          × (get_user_by_sso q s t' ≡ get_user_by_sso q s t)
    ensure_sso_user_lem t u n h = opened t _ u _ (ensured t n) h
