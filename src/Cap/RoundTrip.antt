-- ===== src/Cap/RoundTrip.antt =====
-- An alert emitted as CAP and read back by the ingest side (cap.go, ToXML then MapToAlert).
use aleart_hub.Base.{
  ℕ, ◌≡◌, refl, ◌&&◌, Option, none, some, arith, ltb, if◌then◌else◌, ◌==◌, text_eq, Text, text,
}
use aleart_hub.Alert.{Alert, warning}
use aleart_hub.Alert.Validate.{IsSeverity, IsCategory}
use aleart_hub.Cap.{rank, cap_category, gated_severity, blank, fill, map_info, map_to_alert}
use aleart_hub.Cap.Outgoing.{out_category, status_for, to_out_alert, read_back}
use aleart_hub.Cap.Severity.{collapse_severity-expand_severity}

-- The six categories survive the trip through CAP's names, `custom` by falling on the default.
pub cap_category-out_category :
    (c default : Text)
    → IsCategory c
    → default ≡ text "custom"
    → elim (cap_category (out_category c)) as (λ _. Text) [ none ↦ default | some k ↦ k ] ≡ c
unfolding cap_category out_category
cap_category-out_category c default h e = ground arith

module _ (parse_time : Text → Option ℕ) (format_time : ℕ → Text) where
  -- A published alert that is emitted as CAP and read back keeps its category, and its severity
  -- too unless it is a drill; a drill is marked as a test and comes back at most at `warning`.
  pub map_to_alert-to_out_alert :
      (a : Alert) (sender : Text) (now : ℕ)
      → IsSeverity a.severity
      → IsCategory a.category
      → let m = map_to_alert parse_time (read_back (to_out_alert format_time a sender)) now in
        let drill = a.source == text "drill" in
        (m.category ≡ a.category)
        × (m.is_test ≡ drill)
        × (m.severity
            ≡ (if drill && ltb (rank warning) (rank a.severity) then warning else a.severity))
  unfolding map_to_alert fill map_info blank to_out_alert gated_severity status_for
  map_to_alert-to_out_alert a sender now h k = (
    cap_category-out_category a.category (text "custom") k refl,
    ground arith,
    ground (arith, collapse_severity-expand_severity a.severity h),
  )
