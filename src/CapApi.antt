-- ===== src/CapApi.antt =====
-- server/internal/api/cap_handlers.go: CAP documents that come in over the API. XML (cap.Parse),
-- RFC 3339 and SHA-256 are parameters; the outgoing feed prints what Cap models.
pub mod Recall
mod Tests
use aleart_hub.Base.{
  ℕ, suc, ◌+◌, ◌/◌, Bool, true, false, Option, none, some, List, [], ◌∷◌, ◌++◌, if◌then◌else◌, ◌==◌,
  text_eq, Text, text, oneline,
}
use aleart_hub.Alert.{Alert, Signer, InputError, schema_version, validate_input}
use aleart_hub.Escalation.{second}
use aleart_hub.Cap.{Document, Mapped, Reference, alert_id, parse_references, map_to_alert}
use aleart_hub.Server.{Server, Outside, Setup, publish_alert, cancel_by_id}

-- What of CAP lies outside.
pub record CapLibrary : Type 0 where
  pub parse_time : Text → Option ℕ
  pub sha256 : Text → Text
  pub hex : Text → Text

-- An audit entry: the action, the target and the detail.
pub record Entry : Type 0 where
  pub action : Text
  pub target_id : Text
  pub detail : Text

pub record Api : Type 0 where
  pub server : Server
  pub trail : List Entry

pub data CapReply : Type 0 where
  invalid_xml : CapReply
  no_references : CapReply
  bad_input : InputError → CapReply
  publish_failed : CapReply
  cancel_failed : CapReply
  ingested : Alert → Bool → Text → CapReply
  cancelled : List Text → CapReply

unfoldable pub first_non_empty_str : List Text → Text
first_non_empty_str [] = []
first_non_empty_str (v ∷ vs) = let rest = first_non_empty_str vs in if v == [] then rest else v

abbrev pub audited : Text → Text → Text → Api → Api
audited action target_id detail s = record s {
  trail = s.trail ++ record { action = action; target_id = target_id; detail = detail } ∷ [];
}

module _ (lib : CapLibrary) where
  abbrev pub id_of : Text → Text → Text
  id_of sender identifier = alert_id lib.sha256 lib.hex sender identifier

  abbrev pub ref_id : Reference → Text
  ref_id r = id_of r.sender r.identifier

  -- The id of the first alert that an Update references; empty otherwise.
  unfoldable pub supersedes : Document → Text → Text
  supersedes doc msg_type =
      if msg_type == text "Update"
      then elim (parse_references doc.references) [ [] ↦ [] | r ∷ rs ↦ ref_id r ]
      else []

  -- The alert that handleCAPIngest publishes.
  unfoldable pub cap_alert : Outside → Document → Mapped → Alert
  cap_alert io doc m = record {
    schema_version = schema_version;
    id = first_non_empty_str (supersedes doc m.msg_type ∷ id_of doc.sender doc.identifier ∷ []);
    type = text "alert";
    category = m.category;
    severity = m.severity;
    title = oneline m.title;
    body = oneline m.body;
    action = oneline m.action;
    source = text "cap";
    issued_at = io.now / second;
    ttl = m.ttl;
    nonce = io.new_nonce;
    cancels = [];
    sig = [];
  }

  unfoldable pub ingest_detail : Document → Text → Text
  ingest_detail doc [] = text "CAP ingest from " ++ doc.sender ++ text " " ++ doc.identifier
  ingest_detail doc (c ∷ s) = text "CAP Update superseding " ++ (c ∷ s)

  module _ (signer : Signer) (setup : Setup signer) where
    -- The loop of handleCAPCancel, by the outside of each recall from number `i` on, with the ids
    -- recalled so far.
    unfoldable pub cancel_all :
        (ℕ → Outside) → ℕ → List Reference → List Text → ℕ → Api → Api × CapReply
    cancel_all io i [] ids org s = (s, cancelled ids)
    cancel_all io i (r ∷ rs) ids org s =
        let (server, c) = cancel_by_id signer setup (io i) (ref_id r) (text "cap") org s.server in
        let after =
          audited (text "alert.cancel") (ref_id r)
            (text "CAP Cancel referencing " ++ r.sender ++ text " " ++ r.identifier)
            (record s { server = server }) in
        let rest = cancel_all io (suc i) rs (ids ++ ref_id r ∷ []) org after in
        elim c [ none ↦ (record s { server = server }, cancel_failed) | some a ↦ rest ]

    -- handleCAPCancel
    unfoldable pub handle_cap_cancel : (ℕ → Outside) → Document → ℕ → Api → Api × CapReply
    handle_cap_cancel io doc org s = elim (parse_references doc.references) [
      | [] ↦ (s, no_references)
      | r ∷ rs ↦ cancel_all io 0 (r ∷ rs) [] org s
    ]

    -- handleCAPIngest after the mapping, for a document that is no Cancel.
    unfoldable pub ingest : Outside → Document → Mapped → ℕ → Api → Api × CapReply
    ingest io doc m org s =
        let a = cap_alert io doc m in
        let (server, sent) = publish_alert signer setup io a org s.server in
        let before = supersedes doc m.msg_type in
        elim (validate_input m.severity m.category a.title a.body a.action (text "cap")) [
          | some e ↦ (s, bad_input e)
          | none ↦
              if sent
              then (
                audited (text "alert.publish") a.id (ingest_detail doc before)
                    (record s { server = server }),
                ingested a m.is_test before,
              )
              else (record s { server = server }, publish_failed)
        ]

    -- handleCAPIngest for a POST whose body could be read; `none` is a document that does not parse.
    unfoldable pub handle_cap_ingest : (ℕ → Outside) → Option Document → ℕ → Api → Api × CapReply
    handle_cap_ingest io none org s = (s, invalid_xml)
    handle_cap_ingest io (some doc) org s =
        let m = map_to_alert lib.parse_time doc (io 0).now in
        if m.msg_type == text "Cancel"
        then handle_cap_cancel io doc org s
        else ingest (io 0) doc m org s
