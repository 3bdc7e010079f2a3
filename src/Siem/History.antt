-- ===== src/Siem/History.antt =====
-- The life of the export (siem.go, Run): rows are appended between passes, and a pass may fail in
-- any round.
use aleart_hub.Base.{ℕ, ◌<◌, List, [], ◌∷◌, ◌++◌, length}
use aleart_hub.Audit.{AuditEntry}
use aleart_hub.Siem.{Shipment, taken, Export, last_id, export_once}

abbrev pub unstarted : Export
unstarted = record { cursor = 0; received = [] }

-- An audit log to which rows are only appended, and what passes over it came to.
pub data Reaches (batch : ℕ) : List AuditEntry → Export → Type 0 where
  starts : Reaches batch [] unstarted
  appends :
      (log : List AuditEntry) (x : Export) (e : AuditEntry)
      → Reaches batch log x
      → last_id 0 log < e.id
      → Reaches batch (log ++ e ∷ []) x
  passes :
      (fuel : ℕ) (answers : ℕ → Shipment) (log : List AuditEntry) (x : Export)
      → Reaches batch log x
      → length log < fuel
      → Reaches batch log (export_once fuel batch answers 0 log x).0

-- Nothing fails.
abbrev pub all_taken : ℕ → Shipment
all_taken i = taken
