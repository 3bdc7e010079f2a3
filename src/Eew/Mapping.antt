-- ===== src/Eew/Mapping.antt =====
-- What both relays' mappers guarantee of an event (MapWolfx, MapP2PQuake).
use aleart_hub.Base.{
  ℕ, ◌≡◌, ◌≢◌, refl, subst, ◌≤◌, Bool, Bool-cases, true, false, Option, none, some, inl, inr, [],
  arith, if◌then◌else◌, ◌==◌, text_eq, nat_eq, text_eqb_iff, Text, text, oneline, oneline_lem, ◌++◌,
  All-append,
}
use aleart_hub.Alert.{warning}
use aleart_hub.Alert.Validate.{IsSeverity, IsUnbroken}
use aleart_hub.Eew.{
  WolfxMsg, Event, rank, severity_for_intensity, hold_test, is_unrelated, wolfx_event, map_wolfx,
  is_other, p2p_event, known, scale_to_intensity, P2pMsg, map_p2pquake,
}

severity_for_intensity-IsSeverity : (i : Text) → IsSeverity (severity_for_intensity i)
unfolding severity_for_intensity
severity_for_intensity-IsSeverity i = ground arith

hold_test-IsSeverity : (t : Bool) (s : Text) → IsSeverity s → IsSeverity (hold_test t s)
unfolding hold_test
hold_test-IsSeverity t s h = ground arith

rank-warning : rank warning ≡ 1
unfolding rank
rank-warning = refl

rank-hold_test : (s : Text) → rank (hold_test true s) ≤ 1
unfolding hold_test
rank-hold_test s = ground (arith, rank-warning)

-- An event that the publisher can use: its alert passes the publish-time rules, and a test is
-- at most a warning.
pub record IsPublishableEvent (e : Event) : Type 0 where
  pub has_id : e.event_id ≢ []
  pub severity : IsSeverity e.severity
  pub quiet_test : e.is_test ≡ true → rank e.severity ≤ 1
  pub title : IsUnbroken e.title
  pub body : IsUnbroken e.body
  pub action : IsUnbroken e.action

wolfx_event-IsPublishableEvent :
    (m : WolfxMsg) → is_unrelated m ≡ false → IsPublishableEvent (wolfx_event m)
unfolding wolfx_event is_unrelated
wolfx_event-IsPublishableEvent m h = record {
  has_id = λ e. ground (arith, text_eqb_iff m.event_id []);
  severity = hold_test-IsSeverity _ _ (severity_for_intensity-IsSeverity m.max_intensity);
  quiet_test = λ t. rw t (rank-hold_test (severity_for_intensity m.max_intensity));
  title = oneline_lem _;
  body = oneline_lem _;
  action = omega arith;
}

-- Every event that the Wolfx mapper lets through names its event, has one of the four severities,
-- is at most a warning if it is training, and has text without line breaks.
pub map_wolfx-IsPublishableEvent :
    (m : Option WolfxMsg) (e : Event) → map_wolfx m ≡ some e → IsPublishableEvent e
unfolding map_wolfx
map_wolfx-IsPublishableEvent none e h = cc
map_wolfx-IsPublishableEvent (some m) e h = elim (Bool-cases (is_unrelated m)) [
  | inl skipped ↦ absurd (ground arith)
  | inr taken ↦
      let same : wolfx_event m ≡ e = ground arith in
      subst IsPublishableEvent same (wolfx_event-IsPublishableEvent m taken)
]

module _ (Float : Type 0) (positive : Float → Bool) (format_float : Float → Text)
    (atoi : Text → ℕ) where
  place_IsUnbroken : (s : Text) → IsUnbroken s → IsUnbroken (text "緊急地震速報（" ++ (s ++ text "）"))
  place_IsUnbroken s h =
      All-append _ (text "緊急地震速報（") (s ++ text "）") (omega arith)
        (All-append _ s (text "）") h (omega arith))

  shown_IsUnbroken : (s : Text) → IsUnbroken s → IsUnbroken (if s == [] then text "震源不明" else s)
  shown_IsUnbroken s h = elim (Bool-cases (s == [])) [
    | inl empty ↦ rw empty (omega arith)
    | inr named ↦ rw named h
  ]

  p2p_event-IsPublishableEvent :
      (m : P2pMsg Float)
      → is_other Float m ≡ false
      → IsPublishableEvent (p2p_event Float positive format_float atoi m)
  unfolding p2p_event is_other
  p2p_event-IsPublishableEvent m h = record {
    has_id = λ e. ground (arith, text_eqb_iff m.event_id []);
    severity =
        hold_test-IsSeverity _ _
          (severity_for_intensity-IsSeverity (scale_to_intensity m.max_scale));
    quiet_test =
        λ t. rw t (rank-hold_test (severity_for_intensity (scale_to_intensity m.max_scale)));
    title = place_IsUnbroken _ (shown_IsUnbroken (oneline m.name) (oneline_lem m.name));
    body = oneline_lem _;
    action = omega arith;
  }

  -- The same of the P2PQuake mapper, whatever floats print as.
  pub map_p2pquake-IsPublishableEvent :
      (m : Option (P2pMsg Float)) (e : Event)
      → map_p2pquake Float positive format_float atoi m ≡ some e
      → IsPublishableEvent e
  unfolding map_p2pquake
  map_p2pquake-IsPublishableEvent none e h = cc
  map_p2pquake-IsPublishableEvent (some m) e h = elim (Bool-cases (is_other Float m)) [
    | inl skipped ↦ absurd (ground arith)
    | inr taken ↦
        let same : p2p_event Float positive format_float atoi m ≡ e = ground arith in
        subst IsPublishableEvent same (p2p_event-IsPublishableEvent m taken)
  ]

abbrev scale_rank : ℕ → ℕ
scale_rank s = rank (severity_for_intensity (scale_to_intensity (known s)))

-- A stronger reading of P2PQuake's scale never gets a lower severity.
pub scale_rank_mono : (s t : ℕ) → s ≤ t → scale_rank s ≤ scale_rank t
unfolding rank severity_for_intensity scale_to_intensity
scale_rank_mono s t h = ground arith
