-- ===== src/Server/Recall.antt =====
-- Recalls, refused broadcasts and the publish endpoint (api/api.go).
use mathlib.Core.Option.{map as option_map}
use aleart_hub.Base.{
  subst, Option, some, Bool-cases, Option-cases, inl, inr, refl, text, ◌==◌, text_eqb_iff, ℕ, ◌≡◌,
  ap, ◌∙◌, true, false, [], ◌∷◌, ◌++◌, none, Text, arith, if◌then◌else◌, nat_eq, text_eq,
}
use aleart_hub.Alert.{sign, canonical, signed_parts, Alert, Signer}
use aleart_hub.Escalation.{Ladder, EscalationState, stop_escalation}
use aleart_hub.Server.{
  Server, Outside, Setup, signed, holds, publish_alert, renew_alert, cancel_by_id, cancel_alert,
  after_recall, clear_active,
}
use aleart_hub.Server.Topics.{
  broadcast_on, recalled_up, recalled_down, recall_topics, published_down,
}

clear_held :
    (io : Outside) (i : Text) (s : Server)
    → (clear_active io i s).active ≡ (if holds i s.active then none else s.active)
unfolding clear_active
clear_held io i s = ground arith

clear_events' : (io : Outside) (i : Text) (s : Server) → (clear_active io i s).events ≡ s.events
unfolding clear_active
clear_events' io i s = ground arith

module _ (signer : Signer) (setup : Setup signer) where
  recall_rest :
      (io : Outside) (i : Text) (c : Alert) (org : ℕ) (s : Server)
      → ((after_recall signer setup io i c org s).ladder ≡ stop_escalation i s.ladder)
        × ((after_recall signer setup io i c org s).outbox ≡ s.outbox)
  unfolding after_recall clear_active
  recall_rest io i c org s = (ground arith, ground arith)

  -- What a recall that the broker takes does to the parts of the state.
  pub recalled_lem :
      (io : Outside) (i source : Text) (org : ℕ) (s : Server)
      → io.events_ok ≡ true
      → let t = (cancel_by_id signer setup io i source org s).0 in
        let c = signed signer setup (cancel_alert io i source) in
        (t.events ≡ s.events ++ setup.marshal c ∷ [])
        × (t.active ≡ (if holds i s.active then none else s.active))
        × (t.ladder ≡ stop_escalation i s.ladder)
        × (t.outbox ≡ s.outbox)
  recalled_lem io i source org s up =
      let c = signed signer setup (cancel_alert io i source) in
      let b = broadcast_on signer setup c s in
      let e = recalled_up signer setup io i source org s up in
      let k = recall_topics signer setup io i c org b in
      let r = recall_rest io i c org b in
      (
        ap (λ r. r.0.events) e ∙ k.2 ∙ clear_events' io i b,
        ap (λ r. r.0.active) e ∙ k.0 ∙ clear_held io i b,
        ap (λ r. r.0.ladder) e ∙ r.0,
        ap (λ r. r.0.outbox) e ∙ r.1,
      )

  stopped_own :
      (k : Text) (l : Ladder)
      → stop_escalation k l k
        ≡ option_map (λ (st : EscalationState). record st { done = true }) (l k)
  unfolding stop_escalation
  stopped_own k l = elim (Option-cases (l k)) [
    | inl none_there ↦ rw (stop_escalation, none_there) none_there
    | inr (st, there) ↦ rw (stop_escalation, there, (text_eqb_iff k k).1 refl) refl
  ]

  stopped :
      (i k : Text) (l : Ladder)
      → stop_escalation i l k ≡ (
          if k == i
          then option_map (λ (st : EscalationState). record st { done = true }) (l k)
          else l k)
  unfolding stop_escalation
  stopped i k l = elim (Bool-cases (k == i)) [
    | inl same ↦
        let e = (text_eqb_iff k i).0 same in
        subst
          (λ j.
            stop_escalation j l k
            ≡ option_map (λ (st : EscalationState). record st { done = true }) (l k))
          e (stopped_own k l)
        ∙ rw same refl
    | inr other ↦ elim (Option-cases (l i)) [
      | inl none_there ↦ rw (stop_escalation, none_there, other) refl
      | inr (st, there) ↦ rw (stop_escalation, there, other) refl
    ]
  ]

  held_id :
      (i : Text) (o : Option Alert)
      → (if holds i o then none else o)
        ≡ elim o [ none ↦ none | some a ↦ if a.id == i then none else some a ]
  held_id i none = refl
  held_id i (some a) = refl

  -- A recall that the broker takes broadcasts one signed cancel after all earlier messages, which
  -- names the recalled id, leaves no alert of that id active and any other active alert as it was, marks
  -- that alert's ladder as done and leaves every other ladder, and enqueues nothing in the outbox.
  pub cancel_by_id_lem :
      (io : Outside) (i source : Text) (org : ℕ) (s : Server)
      → io.events_ok ≡ true
      → let t = (cancel_by_id signer setup io i source org s).0 in
        (c : Alert) × (t.events ≡ s.events ++ setup.marshal c ∷ [])
        × (c ≡ signed signer setup c)
        × (c.type ≡ text "cancel")
        × (c.cancels ≡ i)
        × (c.id ≡ io.new_id)
        × (t.active ≡ elim s.active [ none ↦ none | some a ↦ if a.id == i then none else some a ])
        × ((k : Text)
            → t.ladder k ≡ (
                if k == i
                then option_map (λ (st : EscalationState). record st { done = true }) (s.ladder k)
                else s.ladder k))
        × (t.outbox ≡ s.outbox)
  unfolding sign canonical signed_parts cancel_alert
  cancel_by_id_lem io i source org s up =
      let (posted, active, ladder, outbox) = recalled_lem io i source org s up in
      (
        signed signer setup (cancel_alert io i source),
        posted,
        refl,
        refl,
        refl,
        refl,
        active ∙ held_id i s.active,
        λ k. ap (λ l. l k) ladder ∙ stopped i k s.ladder,
        outbox,
      )

  -- Where the broker refuses the message on alerts/events, a publish, a renewal and a recall report
  -- the error and change nothing: no history, no outbox, no ladder, no active alert.
  pub broadcast_refused :
      (io : Outside) (a : Alert) (i source : Text) (org : ℕ) (s : Server)
      → io.events_ok ≡ false
      → (publish_alert signer setup io a org s ≡ (s, false))
        × (renew_alert signer setup io a org s ≡ (s, false))
        × (cancel_by_id signer setup io i source org s ≡ (s, none))
  unfolding renew_alert
  broadcast_refused io a i source org s down = (
    published_down signer setup io a org s down,
    published_down signer setup io _ org s down,
    recalled_down signer setup io i source org s down,
  )
