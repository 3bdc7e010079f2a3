-- ===== src/Scenario/Wording.antt =====
-- What the one-tap endpoint publishes (api/scenario_handlers.go).
use aleart_hub.Base.{
  ℕ, ◌≡◌, refl, true, none, some, List, [], ◌∷◌, ◌++◌, arith, if◌then◌else◌, Text, text, All,
  oneline, oneline_lem, text_eq, has_prefix, has_prefix-append, append-nil, Bool-cases, inl, inr,
}
use aleart_hub.Alert.{Signer, severity_rank?, valid_category, breaks_line, validate_input}
use aleart_hub.Alert.Validate.{IsUnbroken, validate_input_lem}
use aleart_hub.Server.{Server, Outside, Setup, publish_alert, signed}
use aleart_hub.Scenario.{
  Scenario, fired, not_published, all, find_in, get, with_note, scenario_alert,
  handle_publish_scenario,
}

-- ValidateInput passes the template as it stands.
abbrev IsSound : Scenario → Type 0
IsSound sc =
    validate_input sc.severity sc.category sc.title sc.body sc.action (text "scenario") ≡ none

all-IsSound : All IsSound all
unfolding all validate_input severity_rank? valid_category breaks_line
all-IsSound = (refl, (refl, (refl, (refl, (refl, tt)))))

found-IsSound :
    (id : Text) (scs : List Scenario) (sc : Scenario)
    → All IsSound scs
    → find_in id scs ≡ some sc
    → IsSound sc
unfolding find_in
found-IsSound id [] sc h e = ground arith
found-IsSound id (x ∷ scs) sc h e = ground (arith, h.0, found-IsSound id scs sc h.1)

IsUnbroken-append : (s t : Text) → IsUnbroken s → IsUnbroken t → IsUnbroken (s ++ t)
IsUnbroken-append [] t h k = k
IsUnbroken-append (c ∷ s) t h k = (h.0, IsUnbroken-append s t h.1 k)

with_note-IsUnbroken : (body note : Text) → IsUnbroken body → IsUnbroken (with_note body note)
unfolding with_note
with_note-IsUnbroken body note h = ground (
  arith,
  IsUnbroken-append body (text "  " ++ oneline note) h (
      IsUnbroken-append (text "  ") (oneline note)
        (((ground arith, ground arith), ((ground arith, ground arith), tt))) (oneline_lem note)),
)

known_scenario_passes :
    (id note : Text) (sc : Scenario)
    → get id ≡ some sc
    → validate_input sc.severity sc.category sc.title
        (with_note sc.body note)
        sc.action
        (text "scenario")
      ≡ none
unfolding get
known_scenario_passes id note sc found =
    let (severity, category, title, body, action, source) =
      (validate_input_lem sc.severity sc.category sc.title sc.body sc.action (text "scenario")).0
        (found-IsSound id all sc all-IsSound found) in
    (validate_input_lem sc.severity sc.category sc.title (with_note sc.body note) sc.action
        (text "scenario")).1
      (severity, category, title, with_note-IsUnbroken sc.body note body, action, source)

with_note-has_prefix : (body note : Text) → has_prefix body (with_note body note) ≡ true
unfolding with_note
with_note-has_prefix body note = ground (
  arith,
  has_prefix-append body (text "  " ++ oneline note),
  has_prefix-append body [],
  append-nil body,
)

module _ (signer : Signer) (setup : Setup signer) where
  -- A request that names a template, in any case and with any note, is never refused as invalid:
  -- where the broker takes the message, what is published and answered is the template's own
  -- severity, category, title, action and lifetime under the source `scenario:` and its id, in a body
  -- that begins with the template's and has no line break; else nothing changes.
  pub handle_publish_scenario_lem :
      (io : Outside) (id note : Text) (org : ℕ) (s : Server) (sc : Scenario)
      → get id ≡ some sc
      → let a = scenario_alert io sc (with_note sc.body note) in
        (handle_publish_scenario signer setup io id note org s ≡ (
          if io.events_ok
          then ((publish_alert signer setup io a org s).0, fired (signed signer setup a))
          else (s, not_published)))
        × ((has_prefix sc.body a.body ≡ true) × IsUnbroken a.body)
  unfolding handle_publish_scenario publish_alert scenario_alert
  handle_publish_scenario_lem io id note org s sc found =
      let passes = known_scenario_passes id note sc found in
      let (severity, category, title, body, action, source) =
        (validate_input_lem sc.severity sc.category sc.title (with_note sc.body note) sc.action
            (text "scenario")).0
          passes in
      (
        elim (Bool-cases io.events_ok) [
          | inl up ↦ rw (handle_publish_scenario, found, passes, publish_alert, up) refl
          | inr down ↦ rw (handle_publish_scenario, found, passes, publish_alert, down) refl
        ],
        (with_note-has_prefix sc.body note, body),
      )
