-- ===== src/CapApi/Tests.antt =====
-- An Update, and a Cancel that references it.
use aleart_hub.Base.{◌≡◌, ◌≢◌, refl, true, none, some, [], ◌∷◌, text, List, fields, split_n}
use aleart_hub.Alert.{Alert}
use aleart_hub.Alert.Tests.{toy}
use aleart_hub.Cap.{Document, Mapped, Reference, parse_references, collect_references}
use aleart_hub.Server.Tests.{site, start, fine}
use aleart_hub.CapApi.{
  CapLibrary, Api, cancelled, id_of, ref_id, supersedes, cap_alert, handle_cap_cancel,
}
use aleart_hub.CapApi.Recall.{cancel_of_document}

abbrev lib : CapLibrary
lib = record { parse_time = λ t. none; sha256 = λ t. t; hex = λ t. t }

abbrev update : Document
update = record {
  identifier = text "2";
  sender = text "jma";
  sent = text "t";
  status = text "Actual";
  msg_type = text "Update";
  scope = [];
  references = text "jma,1,t";
  info = [];
}

abbrev cancel : Document
cancel = record update {
  identifier = text "3";
  msg_type = text "Cancel";
  references = text "jma,2,t";
}

abbrev mapped : Mapped
mapped = record {
  identifier = text "2";
  msg_type = text "Update";
  is_test = true;
  category = text "earthquake";
  severity = text "critical";
  title = text "T";
  body = [];
  action = [];
  ttl = 600;
  references = text "jma,1,t";
}

abbrev made : Alert
made = cap_alert lib fine update mapped

abbrev running : Api
running = record { server = record start { active = some made }; trail = [] }

abbrev second_ref : Reference
second_ref = record { sender = text "jma"; identifier = text "2"; sent = text "t" }

cancel_references : parse_references cancel.references ≡ second_ref ∷ []
unfolding parse_references collect_references fields split_n
cancel_references = refl

cancel_of_document_example :
    (let (t, reply) = handle_cap_cancel lib toy site (λ k. fine) cancel 1 running in
      (reply ≡ cancelled (id_of lib (text "jma") (text "2") ∷ []))
      × (supersedes lib update (text "Update") ≡ [] → t.server.active ≡ none)
      × ((r0 : Reference) (rest : List Reference)
          → text "Update" ≡ text "Update"
          → parse_references update.references ≡ r0 ∷ rest
          → ref_id lib r0 ≢ id_of lib (text "jma") (text "2")
          → t.server.active ≡ some made))
cancel_of_document_example =
    cancel_of_document lib toy site (λ k. fine) fine update cancel mapped made second_ref 1 running
      (λ k. refl) cancel_references refl refl refl refl
