-- ===== src/Store/Listing.antt =====
-- The three listings (History, ListAudit, RecentDeadDeliveries).
use aleart_hub.Base.{
  ◌≤◌, ◌++◌, ◌&&◌, text_eq, ℕ, ◌≡◌, refl, true, false, ◌||◌, List, [], ◌∷◌, arith, map, select,
  if◌then◌else◌, ◌==◌, nat_eq, ltb, leb, Text,
}
use aleart_hub.Server.{Row}
use aleart_hub.Audit.{AuditEntry}
use aleart_hub.Store.{text_leb, newer_alert, page, history, list_audit}
use aleart_hub.Store.Newest.{IsTotal, IsInOrder, Page, page-Page}

text_leb_total : (s t : Text) → text_leb s t ≡ false → text_leb t s ≡ true
text_leb_total [] t h = absurd (ground arith)
text_leb_total (c ∷ s) [] h = refl
text_leb_total (c ∷ s) (d ∷ t) h = ground (arith, text_leb_total s t)

newer_alert-IsTotal : IsTotal newer_alert
newer_alert-IsTotal a b h = ground (arith, text_leb_total b.alert.id a.alert.id)

abbrev pub IsDescending : List ℕ → Type 0
IsDescending [] = Unit
IsDescending (n ∷ []) = Unit
IsDescending (n ∷ m ∷ ns) = (m ≤ n) × IsDescending (m ∷ ns)

descending :
    (shown rest : List Row)
    → IsInOrder newer_alert (shown ++ rest)
    → IsDescending (map (λ r. r.alert.issued_at) shown)
descending [] rest o = tt
descending (a ∷ []) rest o = tt
descending (a ∷ b ∷ rs) rest o = (ground (arith, o.0), descending (b ∷ rs) rest o.1)

-- The history of an organisation is a page of its own alerts only, and the times of issue go down on it;
-- among alerts of one second the greater id stands first. Every alert of the organisation stands
-- on the page or after it in that order, and none is left out while the page has room.
pub history_lem :
    (org limit : ℕ) (rows : List Row)
    → (shown : List Row) × (history org limit rows ≡ map (λ r. r.alert) shown)
      × IsDescending (map (λ r. r.alert.issued_at) shown)
      × Page
          (λ a b.
            ltb b.alert.issued_at a.alert.issued_at
            || a.alert.issued_at == b.alert.issued_at && text_leb b.alert.id a.alert.id)
          (select (λ r. r.org_id == org) rows)
          shown
          limit
unfolding history
history_lem org limit rows =
    let shown = page newer_alert (λ r. r.org_id == org) limit rows in
    let whole = page-Page newer_alert (λ r. r.org_id == org) limit rows newer_alert-IsTotal in
    (shown, refl, descending shown whole.left_out whole.in_order, whole)

-- The audit trail that an organisation reads is a page of its own entries only, the latest id first,
-- of the length asked for, or of 100 where that is 0 or above 500.
pub list_audit_lem :
    (org limit : ℕ) (log : List AuditEntry)
    → Page
        (λ a b. leb b.id a.id)
        (select (λ e. e.org_id == org) log)
        (list_audit org limit log)
        (if limit == 0 || ltb 500 limit then 100 else limit)
unfolding list_audit
list_audit_lem org limit log =
    page-Page (λ a b. leb b.id a.id) (λ e. e.org_id == org) _ log (λ a b h. ground arith)
