-- ===== src/Cap/Outgoing.antt =====
-- server/internal/cap/cap.go: ToXML. The time as RFC 3339 text and the printing of XML are parameters.
use aleart_hub.Base.{ℕ, ◌+◌, [], ◌∷◌, ◌++◌, if◌then◌else◌, ◌==◌, text_eq, nat_eq, Text, text}
use aleart_hub.Alert.{Alert, warning, critical, emergency}
use aleart_hub.Cap.{Info, Document, comma}

pub record OutAlert : Type 0 where
  pub identifier : Text
  pub sender : Text
  pub sent : Text
  pub status : Text
  pub msg_type : Text
  pub scope : Text
  pub references : Text
  pub info : Info

unfoldable pub expand_severity : Text → Text × Text × Text
expand_severity sev =
    if sev == emergency
    then (text "Immediate", text "Extreme", text "Observed")
    else if sev == critical
    then (text "Immediate", text "Severe", text "Possible")
    else if sev == warning
    then (text "Unknown", text "Moderate", text "Likely")
    else (text "Future", text "Minor", text "Possible")

-- The map `outCategory`, with "Other" for a missing key.
unfoldable pub out_category : Text → Text
out_category c =
    if c == text "earthquake"
    then text "Geo"
    else if c == text "fire"
    then text "Fire"
    else if c == text "weather"
    then text "Met"
    else if c == text "security"
    then text "Security"
    else if c == text "system"
    then text "Infra"
    else text "Other"

unfoldable pub status_for : Alert → Text
status_for a = if a.source == text "drill" then text "Exercise" else text "Actual"

-- time.Unix(t, 0).UTC().Format(time.RFC3339)
module _ (format_time : ℕ → Text) where
  unfoldable pub cancel_references : Alert → Text → Text
  cancel_references a sender = sender ++ comma ∷ (a.cancels ++ comma ∷ format_time a.issued_at)

  -- The document that `ToXML` hands to xml.MarshalIndent.
  unfoldable pub to_out_alert : Alert → Text → OutAlert
  to_out_alert a sender =
      let recall = a.type == text "cancel" in
      let (urgency, severity, certainty) = expand_severity a.severity in
      record {
        identifier = a.id;
        sender = sender;
        sent = format_time a.issued_at;
        status = status_for a;
        msg_type = if recall then text "Cancel" else text "Alert";
        scope = text "Private";
        references = if recall then cancel_references a sender else [];
        info = record {
          language = text "zh-CN";
          category = out_category a.category;
          event = a.title;
          response_type = [];
          urgency = urgency;
          severity = severity;
          certainty = certainty;
          headline = a.title;
          description = a.body;
          instruction = a.action;
          expires = format_time (a.issued_at + a.ttl);
          onset = [];
        };
      }

-- What a consumer reads from an emitted document: XML carries each element's text unchanged.
abbrev pub read_back : OutAlert → Document
read_back o = record {
  identifier = o.identifier;
  sender = o.sender;
  sent = o.sent;
  status = o.status;
  msg_type = o.msg_type;
  scope = o.scope;
  references = o.references;
  info = o.info ∷ [];
}
