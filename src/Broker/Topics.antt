-- ===== src/Broker/Topics.antt =====
-- What a receiving device may publish (broker.go), and what it can make the server believe with it
-- (api/acks.go).
use aleart_hub.Base.{
  ℕ, ◌≡◌, ◌≢◌, refl, ap, subst, ◌∙◌, Bool, true, false, ◌&&◌, some, List, [], ◌∷◌, ◌++◌, any,
  any-append, arith, if◌then◌else◌, ◌==◌, nat_eq, text_eq, text_eqb_iff, Text, text, has_prefix,
  contains, contains-append, contains_first, All, split_all, split_all_first, split_all_last,
  append_assoc,
}
use aleart_hub.Devices.{Json, four_parts, ack_topic, pending_devices, Message, ack_message}
use aleart_hub.Devices.History.{run, confirms, empty_hub, pending_devices_lem}
use aleart_hub.Broker.{Creds, on_acl_check}

-- `alerts/<alertID>/ack/<deviceID>`
abbrev pub ack_topic_of : Text → Text → Text
ack_topic_of alert_id d = text "alerts" ++ b'/' ∷ (alert_id ++ b'/' ∷ (text "ack" ++ b'/' ∷ d))

no_slash : (t : Text) → any (λ c. c == b'/') t ≡ false → All (λ c. c ≢ b'/') t
no_slash [] h = tt
no_slash (c ∷ t) h = (ground arith, no_slash t (ground arith))

-- One level of a topic.
abbrev pub IsLevel : Text → Type 0
IsLevel t = (t ≢ []) × All (λ c. c ≢ b'/') t

pub allowed :
    (h : Creds) (alert_id d : Text)
    → on_acl_check h h.client_user (ack_topic_of alert_id d) true ≡ true
unfolding on_acl_check
allowed h alert_id d =
    let part =
      contains-append (text "/ack/") (text "alerts/" ++ alert_id) (text "/ack/" ++ d)
        (contains_first (text "/ack/") d) in
    let part' : contains (text "/ack/") (ack_topic_of alert_id d) ≡ true =
      subst (λ (t : Text). contains (text "/ack/") t ≡ true)
        (append_assoc (text "alerts/") alert_id (text "/ack/" ++ d)) part in
    ground (arith, text_eqb_iff h.client_user h.client_user)

parses :
    (alert_id d : Text)
    → IsLevel alert_id
    → IsLevel d
    → ack_topic (ack_topic_of alert_id d) ≡ some (alert_id, d)
unfolding ack_topic four_parts
parses alert_id d a l =
    let parts : split_all b'/' (ack_topic_of alert_id d)
        ≡ text "alerts" ∷ alert_id ∷ text "ack" ∷ d ∷ [] =
      split_all_first b'/' (text "alerts") (alert_id ++ b'/' ∷ (text "ack" ++ b'/' ∷ d))
        (no_slash (text "alerts") refl)
      ∙ ap (λ (ps : List Text). text "alerts" ∷ ps)
          (split_all_first b'/' alert_id (text "ack" ++ b'/' ∷ d) a.1
            ∙ ap (λ (ps : List Text). alert_id ∷ ps)
                (split_all_first b'/' (text "ack") d (no_slash (text "ack") refl)
                  ∙ ap (λ (ps : List Text). text "ack" ∷ ps) (split_all_last b'/' d l.1))) in
    ap four_parts parts ∙ ground (arith, text_eqb_iff alert_id [], text_eqb_iff d [], a.0, l.0)

-- Any connection as a device may publish the ack of any other device; the server takes it, and no
-- longer lists that device as one that has not confirmed the alert, whatever came before. Here the
-- topic has four levels and the payload is not empty.
pub client_forges_ack :
    (h : Creds) (json : Json) (org now : ℕ) (alert_id d : Text) (c : ℕ) (payload : Text)
    (ms : List Message)
    → IsLevel alert_id
    → IsLevel d
    → (on_acl_check h h.client_user (ack_topic_of alert_id d) true ≡ true)
      × (any
            (λ x. x == d)
            (pending_devices true org alert_id (
              run json org
                (ms ++ ack_message true now (ack_topic_of alert_id d) (c ∷ payload) ∷ [])
                empty_hub))
          ≡ false)
client_forges_ack h json org now alert_id d c payload ms a l =
    let m = ack_message true now (ack_topic_of alert_id d) (c ∷ payload) in
    let heard : confirms alert_id d m ≡ true =
      rw (parses alert_id d a l, confirms)
        (ground (arith, text_eqb_iff alert_id alert_id, text_eqb_iff d d)) in
    (
      allowed h alert_id d,
      pending_devices_lem json org alert_id d (ms ++ m ∷ [])
          ∙ (let e = any-append (confirms alert_id d) ms (m ∷ []) in ground arith),
    )

-- The shapes of topics that a device may publish on.
abbrev open_to_clients : Text → Bool
open_to_clients t =
    if has_prefix (text "alerts/") t && contains (text "/ack/") t
    then true
    else has_prefix (text "status/") t

refused :
    (h : Creds)
    → h.client_user ≢ h.publisher_user
    → (t : Text) → on_acl_check h h.client_user t true ≡ true
    → open_to_clients t ≡ false
    → ⊥
unfolding on_acl_check
refused h ne t ok closed = ground (arith, text_eqb_iff h.client_user h.publisher_user)

-- A connection as a device, where the two users differ, cannot publish on the topics of the server,
-- neither an alert nor a heartbeat.
pub client_topics :
    (h : Creds) (topic : Text)
    → h.client_user ≢ h.publisher_user
    → on_acl_check h h.client_user topic true ≡ true
    → (topic ≢ text "alerts/active")
      × (topic ≢ text "alerts/events")
      × (topic ≢ text "system/heartbeat")
client_topics h topic ne ok = (
  (λ e.
      refused h ne (text "alerts/active")
        (subst (λ (x : Text). on_acl_check h h.client_user x true ≡ true) e ok) refl),
  (λ e.
      refused h ne (text "alerts/events")
        (subst (λ (x : Text). on_acl_check h h.client_user x true ≡ true) e ok) refl),
  (λ e.
      refused h ne (text "system/heartbeat")
        (subst (λ (x : Text). on_acl_check h h.client_user x true ≡ true) e ok) refl),
)
