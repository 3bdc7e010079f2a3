-- ===== src/Siem.antt =====
-- server/internal/siem and store/audit_export.go: the export of the audit log to a collector, from a
-- durable cursor. What the database and the collector answer in each round is an argument; JSON
-- (encoding/json) and the printing of a time are parameters. The rows of the log stand in the order
-- of their ids, as they are inserted.
pub mod Ids
pub mod Collector
pub mod Passes
pub mod History
pub mod Escape
mod Tests
use aleart_hub.Base.{
  ℕ, zero, suc, ◌+◌, ◌*◌, Bool, true, false, not, ◌&&◌, ◌||◌, List, [], ◌∷◌, ◌++◌, map,
  if◌then◌else◌, ◌==◌, nat_eq, nat_eqb, ltb, leb, take, select, length, Text, text, has_prefix,
  contains, itoa,
}
use aleart_hub.Audit.{AuditEntry}

-- The bound that AuditSince puts on its limit.
unfoldable pub clamp : ℕ → ℕ
clamp limit = if limit == 0 || ltb 1000 limit then 200 else limit

-- AuditSince
unfoldable pub audit_since : ℕ → ℕ → List AuditEntry → List AuditEntry
audit_since after_id limit log = take (clamp limit) (select (λ e. ltb after_id e.id) log)

-- Config.Batch as New sets it.
unfoldable pub batch_size : ℕ → ℕ
batch_size n = if n == 0 then 200 else n

-- What happens in one round of the loop: the cursor or the rows cannot be read; the sink fails after
-- it sent some of the entries (the syslog sink writes them one by one); the sink takes them all but
-- the cursor cannot be written; all goes well.
pub data Shipment : Type 0 where
  unreadable : Shipment
  refused : ℕ → Shipment
  unmarked : Shipment
  taken : Shipment

-- The cursor, and every entry that the collector has received, in order.
pub record Export : Type 0 where
  pub cursor : ℕ
  pub received : List AuditEntry

pub data Outcome : Type 0 where
  drained failed out_of_fuel : Outcome

-- `batch[len(batch)-1].ID`, or the number given where the batch is empty.
unfoldable pub last_id : ℕ → List AuditEntry → ℕ
last_id n [] = n
last_id n (e ∷ es) = last_id e.id es

abbrev pub sent : List AuditEntry → Export → Export
sent es x = record x { received = x.received ++ es }

-- A round after the batch was read, by what the loop does next.
unfoldable pub ship :
    ℕ → List AuditEntry → Shipment → Export → (Export → Export × Outcome) → Export × Outcome
ship batch [] a x next = elim a [ unreadable ↦ (x, failed) | _ ↦ (x, drained) ]
ship batch (e ∷ es) unreadable x next = (x, failed)
ship batch (e ∷ es) (refused n) x next = (sent (take n (e ∷ es)) x, failed)
ship batch (e ∷ es) unmarked x next = (sent (e ∷ es) x, failed)
ship batch (e ∷ es) taken x next =
    let x' = record (sent (e ∷ es) x) { cursor = last_id e.id es } in
    elim (ltb (length (e ∷ es)) batch) [ true ↦ (x', drained) | false ↦ next x' ]

-- exportOnce, by the answers of its rounds from number `i` on.
unfoldable pub export_once :
    ℕ → ℕ → (ℕ → Shipment) → ℕ → List AuditEntry → Export → Export × Outcome
export_once zero batch answers i log x = (x, out_of_fuel)
export_once (suc fuel) batch answers i log x =
    ship batch (audit_since x.cursor batch log) (answers i) x
      (export_once fuel batch answers (i + 1) log)

-- The bytes of sdEscape's two replacers: line breaks first, then the three that are escaped.
abbrev pub spaced : ℕ → ℕ
spaced c = if c == b'\n' || c == b'\r' then b' ' else c

abbrev pub is_special : ℕ → Bool
is_special c = c == b'\\' || (c == b'"' || c == b']')

abbrev pub escape_byte : ℕ → Text
escape_byte c = if is_special c then b'\\' ∷ c ∷ [] else c ∷ []

unfoldable pub sd_escape : Text → Text
sd_escape [] = []
sd_escape (c ∷ s) = escape_byte (spaced c) ++ sd_escape s

-- One SD-PARAM, name="value".
unfoldable pub param : Text → Text → Text
param name value = name ++ text "=\"" ++ sd_escape value ++ text "\""

unfoldable pub severity_of : Text → ℕ
severity_of action =
    if contains (text "failed") action || has_prefix (text "audit.") action then 4 else 5

unfoldable pub concat : List Text → Text
concat [] = []
concat (t ∷ ts) = t ++ concat ts

-- The structured data: the local variable `sd` of formatRFC5424.
unfoldable pub structured_data : AuditEntry → List Text
structured_data e =
    text "[alerthub@0 "
    ∷ param (text "action") e.action
    ∷ text " "
    ∷ param (text "actor_type") e.actor_type
    ∷ text " "
    ∷ param (text "actor") e.actor_name
    ∷ text " "
    ∷ param (text "target") e.target_id
    ∷ text " org=\""
    ∷ itoa e.org_id
    ∷ text "\" "
    ∷ param (text "ip") e.ip
    ∷ text " "
    ∷ param (text "hash") e.hash
    ∷ text "]"
    ∷ []

-- formatRFC5424, by the printing of a time and of the entry as JSON.
unfoldable pub format_rfc5424 : (ℕ → Text) → (AuditEntry → Text) → Text → AuditEntry → Text
format_rfc5424 format_time marshal host e =
    concat (
      text "<"
      ∷ itoa (13 * 8 + severity_of e.action)
      ∷ text ">1 "
      ∷ format_time e.at
      ∷ text " "
      ∷ host
      ∷ text " alerthub - "
      ∷ sd_escape e.action
      ∷ text " "
      ∷ concat (structured_data e)
      ∷ text " "
      ∷ marshal e
      ∷ [])
    ++ text "\n"
