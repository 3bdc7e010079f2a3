-- ===== src/Store/Tests.antt =====
-- A history of two organisations, an audit trail, and the query of a claim.
use aleart_hub.Base.{
  ltb, ◌||◌, ◌&&◌, ◌≡◌, refl, true, List, [], ◌∷◌, map, select, ◌==◌, nat_eq, text, itoa,
}
use aleart_hub.Alert.{Alert}
use aleart_hub.Alert.Tests.{fire}
use aleart_hub.Server.{Row}
use aleart_hub.Store.{text_leb, rebind_from, rebind, page, history}
use aleart_hub.Store.Newest.{Page}
use aleart_hub.Store.Listing.{IsDescending, history_lem}

abbrev old : Alert
old = record fire { id = text "a0"; issued_at = 1600000000 }

abbrev twin : Alert
twin = record fire { id = text "a2" }

abbrev table : List Row
table =
    record { org_id = 1; alert = old }
    ∷ record { org_id = 1; alert = fire }
    ∷ record { org_id = 2; alert = twin }
    ∷ record { org_id = 1; alert = twin }
    ∷ []

-- The newest two; of two alerts of one second the greater id stands first.
two_newest : history 1 2 table ≡ twin ∷ fire ∷ []
unfolding history page
two_newest = refl

history_lem_example :
    (shown : List Row) × (history 1 2 table ≡ map (λ r. r.alert) shown)
    × IsDescending (map (λ r. r.alert.issued_at) shown)
    × Page
        (λ a b.
          ltb b.alert.issued_at a.alert.issued_at
          || a.alert.issued_at == b.alert.issued_at && text_leb b.alert.id a.alert.id)
        (select (λ r. r.org_id == 1) table)
        shown
        2
history_lem_example = history_lem 1 2 table

claim_query : rebind true (text "org=? AND id=?") ≡ text "org=$1 AND id=$2"
unfolding rebind rebind_from itoa
claim_query = refl
