-- ===== src/Audit.antt =====
-- server/internal/store/audit.go and audit_prune.go: the hash-chained audit log. A table is the
-- list of its rows in the order of their ids; SHA-256 in hex and the time format are parameters.
pub mod Canonical
pub mod Chain
pub mod Evidence
pub mod Prune
pub mod Faults
mod Tests
use aleart_hub.Base.{
  ℕ, zero, suc, ◌+◌, Bool, true, false, not, Option, none, some, List, [], ◌∷◌, ◌++◌, if◌then◌else◌,
  ◌==◌, nat_eq, text_eq, ltb, Text, text, itoa, length, take, select,
}

pub record AuditEntry : Type 0 where
  pub id : ℕ
  pub org_id : ℕ
  pub at : ℕ
  pub actor_type : Text
  pub actor_id : ℕ
  pub actor_name : Text
  pub action : Text
  pub target_type : Text
  pub target_id : Text
  pub detail : Text
  pub ip : Text
  pub prev_hash : Text
  pub hash : Text

abbrev pub colon : ℕ
colon = b':'

abbrev pub bar : ℕ
bar = b'|'

-- One `put`: the length, a colon, the bytes, a bar.
unfoldable pub frame : Text → Text
frame s = itoa (length s) ++ colon ∷ (s ++ bar ∷ [])

unfoldable pub frames : List Text → Text
frames [] = []
frames (s ∷ ss) = frame s ++ frames ss

unfoldable pub audit_fields : AuditEntry → Text → List Text
audit_fields e prev_hash =
    prev_hash
    ∷ itoa e.org_id
    ∷ itoa e.at
    ∷ e.actor_type
    ∷ itoa e.actor_id
    ∷ e.actor_name
    ∷ e.action
    ∷ e.target_type
    ∷ e.target_id
    ∷ e.detail
    ∷ e.ip
    ∷ []

unfoldable pub canonical_audit : AuditEntry → Text → Text
canonical_audit e prev_hash = frames (audit_fields e prev_hash)

abbrev pub actor_system : Text
actor_system = text "system"

-- The tables that the log needs: its rows, the next id, and the setting `audit_chain_anchor`
-- (empty where it is unset).
pub record AuditStore : Type 0 where
  pub log : List AuditEntry
  pub next_id : ℕ
  pub anchor : Text

pub data AuditError : Type 0 where
  action_required db_error : AuditError

pub data Result (A : Type 0) : Type 0 where
  ok : A → Result A
  err : AuditError → Result A

-- `SELECT hash … ORDER BY id DESC LIMIT 1`, "" where there is no row.
unfoldable pub head_hash : List AuditEntry → Text
head_hash [] = []
head_hash (e ∷ []) = e.hash
head_hash (e ∷ f ∷ es) = head_hash (f ∷ es)

-- The defaults for a time and an actor that are not given.
unfoldable pub with_defaults : ℕ → AuditEntry → AuditEntry
with_defaults now e = record e {
  at = if e.at == 0 then now else e.at;
  actor_type = if e.actor_type == [] then actor_system else e.actor_type;
}

pub data ChainResult : Type 0 where
  intact : ℕ → ChainResult
  bad_link : ℕ → ℕ → ChainResult
  bad_content : ℕ → ℕ → ChainResult

module _ (sha256_hex : Text → Text) where
  unfoldable pub audit_hash : AuditEntry → Text → Text
  audit_hash e prev_hash = sha256_hex (canonical_audit e prev_hash)

  -- The row as it is inserted: linked to the head, hashed, with a fresh id.
  unfoldable pub linked : AuditStore → AuditEntry → AuditEntry
  linked s e =
      let prev = head_hash s.log in
      record e { id = s.next_id; prev_hash = prev; hash = audit_hash e prev }

  -- appendAuditLocked, which AppendAudit calls under the lock after the same checks.
  unfoldable pub append_audit : ℕ → AuditStore → AuditEntry → Result AuditStore
  append_audit now s e =
      if e.action == []
      then err action_required
      else ok
          (record s { log = s.log ++ linked s (with_defaults now e) ∷ []; next_id = s.next_id + 1 })

  -- The walk of VerifyAuditChain: `n` rows were read, and `prev` is the hash to find next.
  unfoldable pub verify_from : Text → ℕ → List AuditEntry → ChainResult
  verify_from prev n [] = intact n
  verify_from prev n (e ∷ es) =
      let rest = verify_from e.hash (n + 1) es in
      if not (e.prev_hash == prev)
      then bad_link (n + 1) e.id
      else if not (audit_hash e prev == e.hash)
      then bad_content (n + 1) e.id
      else rest

  unfoldable pub verify_audit_chain : AuditStore → ChainResult
  verify_audit_chain s = verify_from s.anchor 0 s.log

-- `WHERE at < before`
unfoldable pub is_old : ℕ → AuditEntry → Bool
is_old before e = ltb e.at before

-- The row that a prune leaves behind, before it is linked.
unfoldable pub prune_entry : (ℕ → Text) → ℕ → Text → Text → AuditEntry
prune_entry format_time before actor anchor = record {
  id = 0;
  org_id = 0;
  at = 0;
  actor_type = actor_system;
  actor_id = 0;
  actor_name = actor;
  action = text "audit.prune";
  target_type = text "audit_log";
  target_id = take 12 anchor;
  detail = text "pruned entries older than " ++ format_time before;
  ip = [];
  prev_hash = [];
  hash = [];
}

-- How far a prune gets: a statement that fails ends it, and what ran before stays, as there is no
-- transaction.
pub data Progress : Type 0 where
  recorded deleted anchored : Progress

module _ (sha256_hex : Text → Text) (format_time : ℕ → Text) where
  -- The statements of PruneAudit once the anchor is known: the store, and whether all went through.
  unfoldable pub prune_steps : ℕ → ℕ → Text → Text → Progress → AuditStore → AuditStore × Bool
  prune_steps now before actor anchor progress s =
      elim (append_audit sha256_hex now s (prune_entry format_time before actor anchor)) [
        | err e ↦ (s, false)
        | ok s' ↦ elim progress [
          | recorded ↦ (s', false)
          | deleted ↦ (record s' { log = select (λ e. not (is_old before e)) s'.log }, false)
          | anchored ↦ (
            record s' { log = select (λ e. not (is_old before e)) s'.log; anchor = anchor },
            true,
          )
        ]
      ]

  unfoldable pub counted : ℕ → AuditStore × Bool → AuditStore × Option ℕ
  counted n (s, done) = (s, if done then some n else none)

  -- The part after the old rows are known. The last of them is the new anchor.
  unfoldable pub prune_rows :
      List AuditEntry → ℕ → ℕ → Text → Progress → AuditStore → AuditStore × Option ℕ
  prune_rows [] now before actor progress s = (s, some 0)
  prune_rows (o ∷ os) now before actor progress s =
      counted (length (o ∷ os)) (prune_steps now before actor (head_hash (o ∷ os)) progress s)

  -- PruneAudit: the store and how many rows were removed, or none with an error.
  unfoldable pub prune_audit : ℕ → ℕ → Text → Progress → AuditStore → AuditStore × Option ℕ
  prune_audit now before actor progress s =
      prune_rows (select (is_old before) s.log) now before actor progress s
