-- ===== src/Devices.antt =====
-- server/internal/api/presence.go, acks.go, store/acks.go and pendingDevices of api/escalation.go:
-- which devices are online, and which have confirmed an alert. JSON is a parameter. A Go map is the
-- list of its entries here, since its entries are listed: the order stands for any order.
pub mod Roster
pub mod History
pub mod Ladder
pub mod Tests
use aleart_hub.Base.{
  ℕ, ◌+◌, ◌≡◌, Bool, true, false, not, ◌&&◌, ◌||◌, Option, none, some, List, [], ◌∷◌, ◌++◌, map,
  any, select, if◌then◌else◌, ◌==◌, nat_eq, text_eq, ltb, leb, length, drop, Text, text, has_prefix,
  split_all,
}

-- A time is in seconds.
pub record Presence : Type 0 where
  pub device_id : Text
  pub state : Text
  pub at : ℕ
  pub client : Text
  pub last_seen : ℕ

pub record Ack : Type 0 where
  pub alert_id : Text
  pub device_id : Text
  pub ack_at : ℕ
  pub by : Text

-- A row of the table alert_acks.
pub record AckRow : Type 0 where
  pub org_id : ℕ
  pub ack : Ack

abbrev pub online : Text
online = text "online"

abbrev pub offline : Text
offline = text "offline"

-- What json.Unmarshal makes of a payload: a presence or an error; and what it leaves in an empty Ack,
-- whether it fails or not.
pub record Json : Type 0 where
  pub presence : Text → Option Presence
  pub ack : Text → Ack

-- strings.TrimPrefix(topic, "status/") and the test after it.
unfoldable pub presence_device : Text → Option Text
presence_device topic =
    if has_prefix (text "status/") topic
    then (if drop 7 topic == [] then none else some (drop 7 topic))
    else none

-- The presence that a payload states, if it states one: an empty one is a cleared message.
unfoldable pub stated : Json → Text → Option Presence
stated json [] =
    some (record { device_id = []; state = offline; at = 0; client = []; last_seen = 0 })
stated json (c ∷ payload) = elim (json.presence (c ∷ payload)) [
  | none ↦ none
  | some p ↦ if p.state == online || p.state == offline then some p else none
]

abbrev pub is_device : Text → Presence → Bool
is_device d p = p.device_id == d

-- `s.presence[deviceID] = p`
unfoldable pub set_presence : Presence → List Presence → List Presence
set_presence p roster =
    if any (is_device p.device_id) roster
    then map (λ q. if is_device p.device_id q then p else q) roster
    else roster ++ p ∷ []

-- OnPresence
unfoldable pub on_presence : Json → ℕ → Text → Text → List Presence → List Presence
on_presence json now topic payload roster = elim (presence_device topic) [
  | none ↦ roster
  | some d ↦ elim (stated json payload) [
    | none ↦ roster
    | some p ↦ set_presence (record p { device_id = d; last_seen = now }) roster
  ]
]

abbrev pub is_online : Presence → Bool
is_online p = p.state == online

-- onlineDevices
unfoldable pub online_devices : List Presence → List Text
online_devices roster = map (λ p. p.device_id) (select is_online roster)

abbrev pub same_ack : Ack → AckRow → Bool
same_ack a row = row.ack.alert_id == a.alert_id && row.ack.device_id == a.device_id

-- RecordAck: the flag is the absence of an error. A conflict leaves the organisation as it is.
unfoldable pub record_ack : Bool → ℕ → ℕ → Ack → List AckRow → List AckRow × Bool
record_ack written now org a rows =
    let b = record a { ack_at = if a.ack_at == 0 then now else a.ack_at } in
    if a.alert_id == [] || a.device_id == []
    then (rows, true)
    else if not written
    then (rows, false)
    else if any (same_ack a) rows
    then (map (λ r. if same_ack a r then record r { ack = b } else r) rows, true)
    else (rows ++ record { org_id = org; ack = b } ∷ [], true)

abbrev pub is_for : ℕ → Text → AckRow → Bool
is_for org alert_id row = row.org_id == org && row.ack.alert_id == alert_id

-- ORDER BY ack_at
unfoldable pub insert_by_ack : Ack → List Ack → List Ack
insert_by_ack a [] = a ∷ []
insert_by_ack a (b ∷ bs) =
    let rest = insert_by_ack a bs in if leb a.ack_at b.ack_at then a ∷ b ∷ bs else b ∷ rest

unfoldable pub sort_by_ack : List Ack → List Ack
sort_by_ack [] = []
sort_by_ack (a ∷ more) = insert_by_ack a (sort_by_ack more)

-- ListAcks, where the database can be read.
unfoldable pub list_acks : Bool → ℕ → Text → List AckRow → Option (List Ack)
list_acks readable org alert_id rows =
    if readable
    then some (sort_by_ack (map (λ r. r.ack) (select (is_for org alert_id) rows)))
    else none

-- CountAcks
unfoldable pub count_acks : ℕ → Text → List AckRow → ℕ
count_acks org alert_id rows = length (select (is_for org alert_id) rows)

-- The alert and the device of `alerts/<alertID>/ack/<deviceID>`.
unfoldable pub four_parts : List Text → Option (Text × Text)
four_parts (a ∷ alert_id ∷ k ∷ device_id ∷ []) =
    if a == text "alerts" && k == text "ack" && not (alert_id == []) && not (device_id == [])
    then some (alert_id, device_id)
    else none
four_parts _ = none

unfoldable pub ack_topic : Text → Option (Text × Text)
ack_topic topic = four_parts (split_all b'/' topic)

-- OnAck
unfoldable pub on_ack : Json → Bool → ℕ → ℕ → Text → Text → List AckRow → List AckRow
on_ack json written now org topic [] rows = rows
on_ack json written now org topic (c ∷ payload) rows = elim (ack_topic topic) [
  | none ↦ rows
  | some (alert_id, device_id) ↦
      (record_ack written now org
        (record (json.ack (c ∷ payload)) { alert_id = alert_id; device_id = device_id }) rows).0
]

-- The keys of the map `acked`, or of `ackedSet`.
abbrev pub has_acked : Text → List Ack → Bool
has_acked d list = any (λ a. a.device_id == d) list

pub record Hub : Type 0 where
  pub roster : List Presence
  pub acks : List AckRow

-- The devices that are online and not in the list.
unfoldable pub silent_devices : List Ack → List Presence → List Text
silent_devices acked roster =
    map (λ p. p.device_id) (select (λ p. is_online p && not (has_acked p.device_id acked)) roster)

-- pendingDevices: where the acks cannot be read, nobody has acked.
unfoldable pub pending_devices : Bool → ℕ → Text → Hub → List Text
pending_devices readable org alert_id h =
    let acked = elim (list_acks readable org alert_id h.acks) as (λ o. List Ack) [
      | none ↦ []
      | some l ↦ l
    ] in
    silent_devices acked h.roster

pub record AckRoster : Type 0 where
  pub alert_id : Text
  pub acked : List Ack
  pub online : List Text
  pub pending : List Text
  pub ack_count : ℕ

pub data RosterAnswer : Type 0 where
  id_required : RosterAnswer
  lookup_failed : RosterAnswer
  roster_shown : AckRoster → RosterAnswer

-- handleAcks, for the organisation of the request.
unfoldable pub handle_acks : Bool → ℕ → Text → Hub → RosterAnswer
handle_acks readable org [] h = id_required
handle_acks readable org (c ∷ id) h = elim (list_acks readable org (c ∷ id) h.acks) [
  | none ↦ lookup_failed
  | some acked ↦ roster_shown (record {
    alert_id = c ∷ id;
    acked = acked;
    online = online_devices h.roster;
    pending = silent_devices acked h.roster;
    ack_count = length acked;
  })
]

-- What the broker hands to the two subscriptions: a time, whether the database takes a write, a topic
-- and a payload.
pub data Message : Type 0 where
  status_message : ℕ → Text → Text → Message
  ack_message : Bool → ℕ → Text → Text → Message

unfoldable pub receive : Json → ℕ → Message → Hub → Hub
receive json org (status_message now topic payload) h = record h {
  roster = on_presence json now topic payload h.roster;
}
receive json org (ack_message written now topic payload) h = record h {
  acks = on_ack json written now org topic payload h.acks;
}
