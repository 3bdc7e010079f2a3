-- ===== src/Alert/Beat.antt =====
-- The signed bytes of a heartbeat (heartbeat.go, CanonicalHeartbeat), and why no alert has them.
use aleart_hub.Base.{
  ℕ, ◌≡◌, ◌≢◌, refl, arith, Text, text, newline, All, IsFramed, join-injective, split_inj, itoa,
  itoa-injective, itoa-IsDigit, IsDigit,
}
use aleart_hub.Alert.{Alert, Heartbeat, canonical, heartbeat_parts, canonical_heartbeat}
use aleart_hub.Alert.Canonical.{itoa-IsOneLine}

-- All that a heartbeat signs: everything but `schema_version`, `type` and the signature itself.
pub record SameBeat (g h : Heartbeat) : Type 0 where
  pub seq : g.seq ≡ h.seq
  pub issued_at : g.issued_at ≡ h.issued_at
  pub interval : g.interval ≡ h.interval
  pub active_count : g.active_count ≡ h.active_count
  pub health : g.health ≡ h.health

heartbeat_parts-IsFramed : (h : Heartbeat) → IsFramed (heartbeat_parts h)
unfolding heartbeat_parts
heartbeat_parts-IsFramed h = (
  omega arith,
  (
    itoa-IsOneLine h.seq,
    (itoa-IsOneLine h.issued_at, (itoa-IsOneLine h.interval, (itoa-IsOneLine h.active_count, tt))),
  ),
)

parts_SameBeat : (g h : Heartbeat) → heartbeat_parts g ≡ heartbeat_parts h → SameBeat g h
unfolding heartbeat_parts
parts_SameBeat g h e = record {
  seq = itoa-injective g.seq h.seq (cc);
  issued_at = itoa-injective g.issued_at h.issued_at (cc);
  interval = itoa-injective g.interval h.interval (cc);
  active_count = itoa-injective g.active_count h.active_count (cc);
  health = cc;
}

-- Two heartbeats with equal canonical bytes agree in every signed field, whatever their health.
pub canonical_heartbeat-injective :
    (g h : Heartbeat) → canonical_heartbeat g ≡ canonical_heartbeat h → SameBeat g h
unfolding canonical_heartbeat
canonical_heartbeat-injective g h e = parts_SameBeat g h (
    join-injective (heartbeat_parts g) (heartbeat_parts h) refl (heartbeat_parts-IsFramed g)
      (heartbeat_parts-IsFramed h) e)

itoa-ne-tag : (n : ℕ) → itoa n ≢ text "hb2"
itoa-ne-tag n e =
    let d = itoa-IsDigit n in let t : All IsDigit (text "hb2") = rw e at d in omega arith

-- The canonical bytes of an alert are never those of a heartbeat, whatever either holds: the first
-- line of one is a number, and that of the other is `hb2`.
pub canonical-ne-canonical_heartbeat :
    (nfc : Text → Text) (a : Alert) (h : Heartbeat) → canonical nfc a ≢ canonical_heartbeat h
unfolding canonical canonical_heartbeat
canonical-ne-canonical_heartbeat nfc a h e =
    itoa-ne-tag a.schema_version
      (split_inj newline (itoa a.schema_version) (text "hb2") _ _ (itoa-IsOneLine a.schema_version)
        (omega arith) e).0
