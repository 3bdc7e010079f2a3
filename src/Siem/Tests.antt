-- ===== src/Siem/Tests.antt =====
-- The export theorems at a log of two rows, with a collector that fails once.
use aleart_hub.Base.{ℕ, ◌≡◌, refl, List, [], ◌∷◌, Text, text}
use aleart_hub.Audit.{AuditEntry}
use aleart_hub.Siem.{
  Shipment, unmarked, Export, last_id, export_once, ship, audit_since, clamp, severity_of,
}
use aleart_hub.Siem.Collector.{receive}
use aleart_hub.Siem.Passes.{kept}
use aleart_hub.Siem.History.{unstarted, all_taken}

abbrev login : AuditEntry
login = record {
  id = 1;
  org_id = 1;
  at = 10;
  actor_type = text "user";
  actor_id = 3;
  actor_name = text "a]\"\n";
  action = text "auth.login_failed";
  target_type = [];
  target_id = [];
  detail = [];
  ip = [];
  prev_hash = [];
  hash = [];
}

abbrev publish : AuditEntry
publish = record login { id = 2; action = text "alert.publish" }

abbrev two_rows : List AuditEntry
two_rows = login ∷ publish ∷ []

-- The first round's batch is taken and not marked; later rounds do well.
abbrev unmarked_once : ℕ → Shipment
unmarked_once i = unmarked

abbrev after_fault : Export
after_fault = (export_once 5 1 unmarked_once 0 two_rows unstarted).0

-- The entry that was sent twice is kept once.
replayed : kept (export_once 5 1 all_taken 0 two_rows after_fault).0 ≡ two_rows
unfolding export_once ship last_id receive audit_since clamp
replayed = refl

abbrev clock : ℕ → Text
clock t = text "1970-01-01T00:00:10Z"

abbrev as_json : AuditEntry → Text
as_json e = text "{}"

warned : severity_of (text "auth.login_failed") ≡ 4
unfolding severity_of
warned = refl
