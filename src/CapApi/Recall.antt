-- ===== src/CapApi/Recall.antt =====
-- Recalls by CAP (api/cap_handlers.go over cap/cap.go and api/api.go): what a Cancel clears.
use aleart_hub.Base.{
  ℕ, suc, ◌≡◌, ◌≢◌, refl, sym, ap, subst, ◌∙◌, Bool, true, false, Option, none, some, List, [], ◌∷◌,
  ◌++◌, append-nil, append_assoc, any, map, arith, if◌then◌else◌, text_eq, text_eqb_iff, Text, text,
  inl, inr, Bool-cases,
}
use aleart_hub.Alert.{Alert, Signer}
use aleart_hub.Cap.{Document, Mapped, Reference, alert_id, parse_references}
use aleart_hub.Server.{Outside, Setup, holds}
use aleart_hub.Server.Topics.{recalled_up}
use aleart_hub.Server.Recall.{recalled_lem}
use aleart_hub.CapApi.{
  CapLibrary, Api, cancelled, first_non_empty_str, id_of, ref_id, supersedes, cap_alert, cancel_all,
  handle_cap_cancel,
}

module _ (lib : CapLibrary) (signer : Signer) (setup : Setup signer) where
  -- One of the references is to the alert.
  abbrev pub recalls : List Reference → Option Alert → Bool
  recalls rs a = any (λ r. holds (ref_id lib r) a) rs

  abbrev pub ids_of : List Reference → List Text
  ids_of rs = map (ref_id lib) rs

  recalls-none : (rs : List Reference) → recalls rs none ≡ false
  recalls-none [] = refl
  recalls-none (r ∷ rs) = recalls-none rs

  recalls_after :
      (i : Text) (rs : List Reference) (a b : Option Alert)
      → b ≡ (if holds i a then none else a)
      → (if recalls rs b then none else b)
        ≡ (if (if holds i a then true else recalls rs a) then none else a)
  recalls_after i rs a b e =
      subst
        (λ (x : Option Alert).
          (if recalls rs x then none else x)
          ≡ (if (if holds i a then true else recalls rs a) then none else a))
        (sym e)
        (elim (Bool-cases (holds i a)) [
          | inl held ↦ rw (held, recalls-none rs) refl
          | inr other ↦ rw other refl
        ])

  cancel_all_lem :
      (io : ℕ → Outside) (i : ℕ) (rs : List Reference) (ids : List Text) (org : ℕ) (s : Api)
      → ((k : ℕ) → (io k).events_ok ≡ true)
      → let (t, reply) = cancel_all lib signer setup io i rs ids org s in
        (reply ≡ cancelled (ids ++ ids_of rs))
        × (t.server.active ≡ (if recalls rs s.server.active then none else s.server.active))
  unfolding cancel_all
  cancel_all_lem io i [] ids org s up = (ap cancelled (sym (append-nil ids)), refl)
  cancel_all_lem io i (r ∷ rs) ids org s up =
      let id = ref_id lib r in
      let one = recalled_up signer setup (io i) id (text "cap") org s.server (up i) in
      let (_, active, _, _) =
        recalled_lem signer setup (io i) id (text "cap") org s.server (up i) in
      let taken = ap (λ x. x.1) one in
      let (reply, rest) = cancel_all_lem io (suc i) rs (ids ++ id ∷ []) org _ up in
      rw (taken, cancel_all)
        (
          reply ∙ ap cancelled (append_assoc ids (id ∷ []) (ids_of rs)),
          rest ∙ recalls_after id rs s.server.active _ active,
        )

  -- A Cancel that references alerts, where the broker takes every recall: each is answered as
  -- cancelled, in order; an active alert that is among them is cleared, and any other stays active.
  pub handle_cap_cancel_lem :
      (io : ℕ → Outside) (doc : Document) (r : Reference) (rs : List Reference) (org : ℕ) (s : Api)
      → ((k : ℕ) → (io k).events_ok ≡ true)
      → parse_references doc.references ≡ r ∷ rs
      → let (t, reply) = handle_cap_cancel lib signer setup io doc org s in
        (reply ≡ cancelled (ids_of (r ∷ rs)))
        × (t.server.active ≡ (if recalls (r ∷ rs) s.server.active then none else s.server.active))
  unfolding handle_cap_cancel
  handle_cap_cancel_lem io doc r rs org s up refs =
      rw (refs, handle_cap_cancel) (cancel_all_lem io 0 (r ∷ rs) [] org s up)

  own_id :
      (io : Outside) (doc : Document) (m : Mapped)
      → supersedes lib doc m.msg_type ≡ []
      → (cap_alert lib io doc m).id ≡ id_of lib doc.sender doc.identifier
  unfolding cap_alert first_non_empty_str
  own_id io doc m e = ground (arith, text_eqb_iff (id_of lib doc.sender doc.identifier) [])

  taken_id :
      (io : Outside) (doc : Document) (m : Mapped) (r : Reference) (rs : List Reference)
      → m.msg_type ≡ text "Update"
      → parse_references doc.references ≡ r ∷ rs
      → (cap_alert lib io doc m).id ≡ ref_id lib r
  unfolding cap_alert first_non_empty_str supersedes alert_id
  taken_id io doc m r rs u refs =
      let before : supersedes lib doc m.msg_type ≡ ref_id lib r =
        ground (arith, text_eqb_iff m.msg_type (text "Update")) in
      ground arith

  -- A Cancel that references one document, by its sender and identifier, while the alert that was
  -- made of the document is active, and the broker takes the recall. If the document superseded
  -- nothing, no alert is active after it. If the document was an Update and the first alert that it
  -- references has another id, the recall misses it: the alert stays active, and the Cancel is
  -- answered as done.
  pub cancel_of_document :
      (io : ℕ → Outside) (from : Outside) (doc cancel : Document) (m : Mapped) (a : Alert)
      (r : Reference) (org : ℕ) (s : Api)
      → ((k : ℕ) → (io k).events_ok ≡ true)
      → parse_references cancel.references ≡ r ∷ []
      → r.sender ≡ doc.sender
      → r.identifier ≡ doc.identifier
      → s.server.active ≡ some a
      → a.id ≡ (cap_alert lib from doc m).id
      → let (t, reply) = handle_cap_cancel lib signer setup io cancel org s in
        (reply ≡ cancelled (id_of lib doc.sender doc.identifier ∷ []))
        × (supersedes lib doc m.msg_type ≡ [] → t.server.active ≡ none)
        × ((r0 : Reference) (rest : List Reference)
            → m.msg_type ≡ text "Update"
            → parse_references doc.references ≡ r0 ∷ rest
            → ref_id lib r0 ≢ id_of lib doc.sender doc.identifier
            → t.server.active ≡ some a)
  cancel_of_document io from doc cancel m a r org s up refs e f held own =
      let (reply, active) = handle_cap_cancel_lem io cancel r [] org s up refs in
      let id : ref_id lib r ≡ id_of lib doc.sender doc.identifier =
        ap (λ x. id_of lib x r.identifier) e ∙ ap (id_of lib doc.sender) f in
      let now = active ∙ ap (λ (o : Option Alert). if recalls (r ∷ []) o then none else o) held in
      (
        reply ∙ ap (λ (x : Text). cancelled (x ∷ [])) id,
        (λ nothing.
            let same : a.id ≡ ref_id lib r = own ∙ own_id from doc m nothing ∙ sym id in
            now ∙ ground (arith, text_eqb_iff a.id (ref_id lib r))),
        λ r0 rest u refs' ne.
            let same : a.id ≡ ref_id lib r0 = own ∙ taken_id from doc m r0 rest u refs' in
            let other : a.id ≢ ref_id lib r = λ q. ne (sym same ∙ q ∙ id) in
            now ∙ ground (arith, text_eqb_iff a.id (ref_id lib r)),
      )
