-- ===== src/Store.antt =====
-- server/internal/store/store.go, and the listings of store/delivery.go and store/audit.go with
-- their endpoints: how a query is written for PostgreSQL, and what a page shows. A row is read
-- whole; PostgreSQL's row-level security is the database's.
pub mod Newest
pub mod Listing
pub mod Rebind
mod Tests
use aleart_hub.Base.{
  ℕ, zero, suc, ◌+◌, Bool, true, false, not, ◌&&◌, ◌||◌, Option, none, some, List, [], ◌∷◌, ◌++◌,
  map, select, length, take, if◌then◌else◌, ◌==◌, nat_eq, text_eq, ltb, leb, Text, text, itoa,
}
use aleart_hub.Alert.{Alert}
use aleart_hub.Server.{Row}
use aleart_hub.Delivery.{Job, Status, dead}
use aleart_hub.Audit.{AuditEntry}

-- rebind after `n` placeholders.
unfoldable pub rebind_from : ℕ → Text → Text
rebind_from n [] = []
rebind_from n (c ∷ q) =
    let numbered = rebind_from (n + 1) q in
    let same = rebind_from n q in if c == b'?' then b'$' ∷ itoa (n + 1) ++ numbered else c ∷ same

-- rebind, by whether the driver is postgres.
unfoldable pub rebind : Bool → Text → Text
rebind postgres q = if postgres then rebind_from 0 q else q

-- The order of texts byte by byte, which is SQLite's. An order that is left open is that of the table.
abbrev pub text_leb : Text → Text → Bool
text_leb [] t = true
text_leb (c ∷ s) [] = false
text_leb (c ∷ s) (d ∷ t) = let rest = text_leb s t in ltb c d || c == d && rest

module _ {A : Type 0} (before : A → A → Bool) where
  abbrev pub insert : A → List A → List A
  insert x [] = x ∷ []
  insert x (y ∷ ys) = let later = y ∷ insert x ys in if before x y then x ∷ y ∷ ys else later

  -- ORDER BY
  abbrev pub sort : List A → List A
  sort [] = []
  sort (x ∷ xs) = insert x (sort xs)

  -- SELECT … WHERE … ORDER BY … LIMIT …
  unfoldable pub page : (A → Bool) → ℕ → List A → List A
  page shown limit rows = take limit (sort (select shown rows))

-- ORDER BY issued_at DESC, id DESC
abbrev pub newer_alert : Row → Row → Bool
newer_alert a b =
    ltb b.alert.issued_at a.alert.issued_at
    || a.alert.issued_at == b.alert.issued_at && text_leb b.alert.id a.alert.id

-- History
unfoldable pub history : ℕ → ℕ → List Row → List Alert
history org limit rows =
    map (λ (r : Row). r.alert) (page newer_alert (λ r. r.org_id == org) limit rows)

-- handleHistory
unfoldable pub handle_history : ℕ → List Row → List Alert
handle_history org rows = history org 50 rows

-- ListAudit; a limit that is not positive is 0.
unfoldable pub list_audit : ℕ → ℕ → List AuditEntry → List AuditEntry
list_audit org limit log =
    page (λ a b. leb b.id a.id) (λ e. e.org_id == org)
      (if limit == 0 || ltb 500 limit then 100 else limit) log

-- handleAudit, by the number in the query, if it has one; a negative one is 0.
unfoldable pub handle_audit : ℕ → Option ℕ → List AuditEntry → List AuditEntry
handle_audit org none log = list_audit org 100 log
handle_audit org (some n) log = list_audit org n log

abbrev is_status : Status → Status → Bool
is_status Status.pending Status.pending = true
is_status Status.sent Status.sent = true
is_status Status.dead Status.dead = true
is_status _ _ = false

-- DeliveryStatusCounts: a status without jobs is not in the map.
unfoldable pub delivery_status_counts : ℕ → List Job → Status → Option ℕ
delivery_status_counts org jobs st =
    let n = length (select (λ j. j.org_id == org && is_status j.status st) jobs) in
    if n == 0 then none else some n

-- RecentDeadDeliveries
unfoldable pub recent_dead_deliveries : ℕ → ℕ → List Job → List Job
recent_dead_deliveries org limit jobs =
    page (λ a b. leb b.updated_at a.updated_at) (λ j. j.org_id == org && is_status j.status dead)
      limit jobs
