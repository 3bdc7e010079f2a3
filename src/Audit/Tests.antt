-- ===== src/Audit/Tests.antt =====
-- The audit theorems at a log of two rows, with the identity for SHA-256.
use aleart_hub.Base.{
  some, All, ℕ, ◌≡◌, ◌≢◌, ◌↔◌, ◌⊎◌, refl, false, List, [], ◌∷◌, ◌++◌, arith, Text, text, itoa,
  length,
}
use aleart_hub.Audit.{
  AuditEntry, AuditStore, anchored, head_hash, with_defaults, intact, linked, audit_hash, frame,
  frames, audit_fields, canonical_audit, verify_audit_chain, is_old, prune_audit,
}
use aleart_hub.Audit.Chain.{Chained, IsIntact, appended, appended-IsIntact, verify_audit_chain_lem}
use aleart_hub.Audit.Evidence.{Collision, SameEntries, tamper_evident}
use aleart_hub.Audit.Prune.{IsTimed, old, recent, prune_audit-IsIntact}

abbrev digest : Text → Text
digest m = m

abbrev clock : ℕ → Text
clock t = text "1970-01-01T00:00:00Z"

abbrev login : AuditEntry
login = record {
  id = 0;
  org_id = 1;
  at = 10;
  actor_type = text "user";
  actor_id = 3;
  actor_name = text "ann";
  action = text "auth.login";
  target_type = [];
  target_id = [];
  detail = [];
  ip = [];
  prev_hash = [];
  hash = [];
}

abbrev publish : AuditEntry
publish = record login { at = 20; action = text "alert.publish" }

abbrev empty : AuditStore
empty = record { log = []; next_id = 1; anchor = [] }

abbrev after_login : AuditStore
after_login = appended digest 100 empty login

abbrev both : AuditStore
both = appended digest 100 after_login publish

-- The clock was set back between the two rows.
abbrev backwards : AuditStore
backwards = appended digest 100 (appended digest 100 empty publish) login

empty-IsIntact : IsIntact digest empty
empty-IsIntact = record { chained = tt; fresh = λ e. refl }

both-IsIntact : IsIntact digest both
both-IsIntact =
    appended-IsIntact digest 100 after_login publish
      (appended-IsIntact digest 100 empty login empty-IsIntact)

backwards-IsIntact : IsIntact digest backwards
backwards-IsIntact =
    appended-IsIntact digest 100 (appended digest 100 empty publish) login
      (appended-IsIntact digest 100 empty publish empty-IsIntact)

frame_sample : frame (text "ann") ≡ text "3:ann|"
unfolding frame itoa
frame_sample = refl

verify_audit_chain_lem_example :
    (verify_audit_chain digest both ≡ intact 2) ↔ Chained digest [] both.log
verify_audit_chain_lem_example = verify_audit_chain_lem digest both

both_verifies : verify_audit_chain digest both ≡ intact 2
both_verifies = (verify_audit_chain_lem digest both).1 both-IsIntact.chained

tamper_evident_example :
    Collision digest ⊎ ((both.anchor ≡ both.anchor) × SameEntries both.log both.log)
tamper_evident_example = tamper_evident digest both both refl both_verifies both_verifies refl

both-IsTimed : IsTimed both.log
unfolding linked with_defaults
both-IsTimed = omega arith

prune_audit-IsIntact_example :
    (s' : AuditStore) × (added : List AuditEntry) × (prune_audit digest clock 30 15
        (text "retention")
        anchored
        both
      ≡ (s', some (length (old 15 both.log))))
    × (s'.log ≡ recent 15 both.log ++ added)
    × (length added ≡ 1)
    × All (λ e. (e.action ≡ text "audit.prune") × (e.actor_name ≡ text "retention")) added
    × IsIntact digest s'
    × (verify_audit_chain digest s' ≡ intact (length s'.log))
unfolding linked with_defaults is_old
prune_audit-IsIntact_example =
    prune_audit-IsIntact digest clock 30 15 (text "retention") both both-IsIntact both-IsTimed
      (omega arith)

abbrev row_of : AuditStore → AuditEntry → AuditEntry
row_of s e = linked digest s (with_defaults 100 e)

login-old : old 15 both.log ≡ row_of empty login ∷ []
unfolding linked with_defaults is_old
login-old = refl

login_hash : [] ≢ head_hash (row_of empty login ∷ [])
unfolding linked with_defaults head_hash audit_hash canonical_audit audit_fields frames frame itoa
login_hash e = cc e

abbrev published : AuditStore
published = appended digest 100 empty publish

recent_first : is_old 15 (row_of empty publish) ≡ false
unfolding linked with_defaults is_old
recent_first = refl

old_second : old 15 backwards.log ≡ row_of published login ∷ []
unfolding linked with_defaults is_old
old_second = refl

second_hash : head_hash (row_of published login ∷ []) ≢ []
unfolding linked with_defaults head_hash audit_hash canonical_audit audit_fields frames frame itoa
second_hash e = cc e
