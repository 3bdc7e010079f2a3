-- ===== src/Server/Wire.antt =====
-- What the broker holds after any run of the server (api/api.go).
use aleart_hub.Base.{
  ℕ, ◌≡◌, refl, sym, ap, ◌∙◌, subst, Bool-cases, true, inl, inr, Option, none, some, [], Text,
  text_eq,
}
use aleart_hub.Alert.{Alert, Signer}
use aleart_hub.Server.{
  Server, Outside, Setup, outranks, maybe_set_active, signed, after_broadcast, publish_alert,
  renew_alert, cancel_alert, holds, clear_active, after_recall, cancel_by_id, sweep_expired_active,
  is_expired,
}
use aleart_hub.Server.Topics.{
  Step, publishes, renews, recalls, sweeps, Reaches, stays, goes, SameTopics, broadcast_topics,
  recall_topics, broadcast_on, published_up, published_down, recalled_up, recalled_down, sweep_none,
  sweep_live, sweep_over,
}

-- alerts/active retains the payload of the active alert, and nothing where none is active.
abbrev pub mirror : {signer : Signer} → Setup signer → Option Alert → Text
mirror setup none = []
mirror setup (some a) = setup.marshal a

abbrev pub IsMirrored : {signer : Signer} → Setup signer → Server → Type 0
IsMirrored setup s = s.retained ≡ mirror setup s.active

abbrev pub IsTaken : Outside → Type 0
IsTaken io = io.active_ok ≡ true

module _ (signer : Signer) (setup : Setup signer) where
  set_active-IsMirrored :
      (io : Outside) (a : Alert) (s : Server)
      → IsTaken io
      → IsMirrored setup s
      → IsMirrored setup (maybe_set_active io a (setup.marshal a) s)
  unfolding maybe_set_active
  set_active-IsMirrored io a s t h = elim (Bool-cases (outranks io.now s.active a)) [
    | inl stay ↦ rw stay h
    | inr over ↦ rw (over, t) refl
  ]

  SameTopics-IsMirrored :
      (s t : Server) → SameTopics signer setup s t → IsMirrored setup t → IsMirrored setup s
  SameTopics-IsMirrored s t e h = e.1 ∙ h ∙ ap (mirror setup) (sym e.0)

  publish-IsMirrored :
      (io : Outside) (a : Alert) (org : ℕ) (s : Server)
      → IsTaken io
      → IsMirrored setup s
      → IsMirrored setup (publish_alert signer setup io a org s).0
  publish-IsMirrored io a org s t h = elim (Bool-cases io.events_ok) [
    | inr down ↦
        subst (λ r. IsMirrored setup r.0) (sym (published_down signer setup io a org s down)) h
    | inl up ↦
        subst (λ r. IsMirrored setup r.0) (sym (published_up signer setup io a org s up))
          (SameTopics-IsMirrored
            (after_broadcast signer setup io (signed signer setup a) org
              (broadcast_on signer setup (signed signer setup a) s))
            (maybe_set_active io (signed signer setup a) (setup.marshal (signed signer setup a))
              (broadcast_on signer setup (signed signer setup a) s))
            (broadcast_topics signer setup io (signed signer setup a) org
              (broadcast_on signer setup (signed signer setup a) s))
            (set_active-IsMirrored io (signed signer setup a)
              (broadcast_on signer setup (signed signer setup a) s) t h))
  ]

  clear-IsMirrored :
      (io : Outside) (i : Text) (s : Server)
      → IsTaken io
      → IsMirrored setup s
      → IsMirrored setup (clear_active io i s)
  unfolding clear_active
  clear-IsMirrored io i s t h = elim (Bool-cases (holds i s.active)) [
    | inl held ↦ rw (held, t) refl
    | inr free ↦ rw free h
  ]

  recall-IsMirrored :
      (io : Outside) (i source : Text) (org : ℕ) (s : Server)
      → IsTaken io
      → IsMirrored setup s
      → IsMirrored setup (cancel_by_id signer setup io i source org s).0
  recall-IsMirrored io i source org s t h = elim (Bool-cases io.events_ok) [
    | inr down ↦
        subst (λ r. IsMirrored setup r.0) (sym (recalled_down signer setup io i source org s down))
          h
    | inl up ↦
        let c = signed signer setup (cancel_alert io i source) in
        subst (λ r. IsMirrored setup r.0) (sym (recalled_up signer setup io i source org s up))
          (SameTopics-IsMirrored
            (after_recall signer setup io i c org (broadcast_on signer setup c s))
            (clear_active io i (broadcast_on signer setup c s))
            (recall_topics signer setup io i c org (broadcast_on signer setup c s))
            (clear-IsMirrored io i (broadcast_on signer setup c s) t h))
  ]

  sweep_at-IsMirrored :
      (io : Outside) (s : Server) (cur : Option Alert)
      → s.active ≡ cur
      → IsTaken io
      → IsMirrored setup s
      → IsMirrored setup (sweep_expired_active io s)
  sweep_at-IsMirrored io s none e t h = subst (IsMirrored setup) (sym (sweep_none io s e)) h
  sweep_at-IsMirrored io s (some a) e t h = elim (Bool-cases (is_expired io.now a)) [
    | inl over ↦ subst (IsMirrored setup) (sym (sweep_over io s a e over)) (rw t refl)
    | inr live ↦ subst (IsMirrored setup) (sym (sweep_live io s a e live)) h
  ]

  Step-IsMirrored :
      (s t : Server) → Step signer setup IsTaken s t → IsMirrored setup s → IsMirrored setup t
  Step-IsMirrored _ _ (publishes io a org s p) h = publish-IsMirrored io a org s p h
  Step-IsMirrored _ _ (renews io a org s p) h =
      unfold renew_alert in publish-IsMirrored io _ org s p h
  Step-IsMirrored _ _ (recalls io i source org s p) h = recall-IsMirrored io i source org s p h
  Step-IsMirrored _ _ (sweeps io s p) h = sweep_at-IsMirrored io s s.active refl p h

  -- While the broker takes every message on alerts/active, whatever happens on alerts/events, any run
  -- of publishes, renewals, recalls and sweeps from a state in which the retained message is that of
  -- the active alert ends in such a state.
  pub Reaches-IsMirrored :
      (s t : Server) → Reaches signer setup IsTaken s t → IsMirrored setup s → IsMirrored setup t
  Reaches-IsMirrored _ _ (stays s) h = h
  Reaches-IsMirrored _ _ (goes s t u r k) h = Step-IsMirrored t u k (Reaches-IsMirrored s t r h)
