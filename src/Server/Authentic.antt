-- ===== src/Server/Authentic.antt =====
-- What clients receive on alerts/events carries the server's signature (api/api.go).
use aleart_hub.Base.{
  ℕ, ◌≡◌, refl, sym, ◌∙◌, subst, Bool-cases, true, inl, inr, [], ◌∷◌, Text, All, All-append,
}
use aleart_hub.Alert.{Alert, Signer, verify}
use aleart_hub.Alert.Signature.{SignerLaws, verify-sign}
use aleart_hub.Server.{
  Server, Outside, Setup, signed, after_broadcast, publish_alert, renew_alert, cancel_alert,
  after_recall, cancel_by_id, sweep_expired_active,
}
use aleart_hub.Server.Topics.{
  Step, publishes, renews, recalls, sweeps, Reaches, stays, goes, broadcast_topics, recall_topics,
  broadcast_on, published_up, published_down, recalled_up, recalled_down, set_active_events,
  clear_events, sweep_events,
}

module _ (signer : Signer) (laws : SignerLaws signer) (setup : Setup signer) where
  -- The payload is the JSON of an alert that verifies under the server's public key.
  abbrev pub IsGenuine : Text → Type 0
  IsGenuine p =
      (a : Alert) × (p ≡ setup.marshal a)
      × (verify signer setup.nfc (signer.public setup.priv) a ≡ true)

  abbrev pub AllGenuine : Server → Type 0
  AllGenuine s = All IsGenuine s.events

  sent-AllGenuine :
      (a : Alert) (s : Server)
      → AllGenuine s
      → AllGenuine (broadcast_on signer setup (signed signer setup a) s)
  sent-AllGenuine a s h =
      All-append IsGenuine s.events (setup.marshal (signed signer setup a) ∷ []) h
        ((signed signer setup a, refl, verify-sign signer laws setup.nfc setup.priv a), tt)

  same-AllGenuine : (s t : Server) → s.events ≡ t.events → AllGenuine t → AllGenuine s
  same-AllGenuine s t e h = subst (All IsGenuine) (sym e) h

  publish-AllGenuine :
      (io : Outside) (a : Alert) (org : ℕ) (s : Server)
      → AllGenuine s
      → AllGenuine (publish_alert signer setup io a org s).0
  publish-AllGenuine io a org s h = elim (Bool-cases io.events_ok) [
    | inr down ↦ subst (λ r. AllGenuine r.0) (sym (published_down signer setup io a org s down)) h
    | inl up ↦
        let k = signed signer setup a in
        let t = broadcast_on signer setup k s in
        subst (λ r. AllGenuine r.0) (sym (published_up signer setup io a org s up))
          (same-AllGenuine (after_broadcast signer setup io k org t) t
            ((broadcast_topics signer setup io k org t).2
              ∙ set_active_events signer setup io k (setup.marshal k) t)
            (sent-AllGenuine a s h))
  ]

  recall-AllGenuine :
      (io : Outside) (i source : Text) (org : ℕ) (s : Server)
      → AllGenuine s
      → AllGenuine (cancel_by_id signer setup io i source org s).0
  recall-AllGenuine io i source org s h = elim (Bool-cases io.events_ok) [
    | inr down ↦
        subst (λ r. AllGenuine r.0) (sym (recalled_down signer setup io i source org s down)) h
    | inl up ↦
        let k = signed signer setup (cancel_alert io i source) in
        let t = broadcast_on signer setup k s in
        subst (λ r. AllGenuine r.0) (sym (recalled_up signer setup io i source org s up))
          (same-AllGenuine (after_recall signer setup io i k org t) t
            ((recall_topics signer setup io i k org t).2 ∙ clear_events signer setup io i t)
            (sent-AllGenuine (cancel_alert io i source) s h))
  ]

  Step-AllGenuine :
      (s t : Server) → Step signer setup (λ io. Unit) s t → AllGenuine s → AllGenuine t
  Step-AllGenuine _ _ (publishes io a org s p) h = publish-AllGenuine io a org s h
  Step-AllGenuine _ _ (renews io a org s p) h =
      unfold renew_alert in publish-AllGenuine io _ org s h
  Step-AllGenuine _ _ (recalls io i source org s p) h = recall-AllGenuine io i source org s h
  Step-AllGenuine _ _ (sweeps io s p) h =
      same-AllGenuine (sweep_expired_active io s) s (sweep_events io s) h

  -- Whatever the broker, the database and the clock do, every message that any run of publishes,
  -- renewals, recalls and sweeps puts on alerts/events is the JSON of an alert that verifies under the
  -- server's public key, if all that were there before are.
  pub Reaches-AllGenuine :
      (s t : Server) → Reaches signer setup (λ io. Unit) s t → AllGenuine s → AllGenuine t
  Reaches-AllGenuine _ _ (stays s) h = h
  Reaches-AllGenuine _ _ (goes s t u r k) h = Step-AllGenuine t u k (Reaches-AllGenuine s t r h)
