-- ===== src/Accounts/Boot.antt =====
-- The start of server/main.go on the tables: seedAdmin, EnsureDefaultOrg and the two backfills.
pub mod Settled
use aleart_hub.Base.{
  ℕ, Bool, true, false, Option, none, some, List, [], ◌∷◌, if◌then◌else◌, ◌==◌, text_eq, ltb, Text,
  text,
}
use aleart_hub.Access.{User}
use aleart_hub.Accounts.{
  Tables, count_users, create_user, make_superadmin, ensure_default_org, backfill_memberships,
  backfill_org_id,
}

-- The user that seedAdmin makes; HashPassword gives none where it fails, and a random password
-- stands for an empty one.
abbrev pub first_admin : Text → Text → User
first_admin name hash = record {
  id = 0;
  upn = name;
  email = [];
  password_hash = hash;
  role = text "admin";
  enabled = true;
  token_version = 0;
  is_superadmin = false;
}

-- seedAdmin: the tables, and whether it returns nil; `super_ok` is whether MakeSuperadmin works.
unfoldable pub seed_admin :
    (Text → Option Text) → Text → Text → Text → Bool → Tables → Tables × Bool
seed_admin hash_password user pass random super_ok t =
    if ltb 0 (count_users t)
    then (t, true)
    else elim (hash_password (if pass == [] then random else pass)) [
      | none ↦ (t, false)
      | some hash ↦ elim (create_user (first_admin user hash) t) [
        | none ↦ (t, false)
        | some (t', id) ↦ if super_ok then (make_superadmin id t', true) else (t', false)
      ]
    ]

-- Which statements of the start the database takes: MakeSuperadmin and the two backfills.
pub record Takes : Type 0 where
  pub superadmin : Bool
  pub memberships : Bool
  pub org_ids : Bool

-- The part of main that works on the tables: the tables and the default organisation, or none where
-- it stops with log.Fatal. A backfill that fails is only logged. The other statements succeed
-- unless a row clashes.
unfoldable pub start_up :
    (Text → Option Text) → Text → Text → Text → Takes → Tables → Option (Tables × ℕ)
start_up hash_password user pass random db t =
    let (t1, seeded) = seed_admin hash_password user pass random db.superadmin t in
    if seeded
    then elim (ensure_default_org t1) [
      | none ↦ none
      | some (t2, org) ↦
          let t3 = if db.memberships then backfill_memberships org t2 else t2 in
          some (if db.org_ids then backfill_org_id org t3 else t3, org)
    ]
    else none
