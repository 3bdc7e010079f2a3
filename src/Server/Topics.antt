-- ===== src/Server/Topics.antt =====
-- The operations as steps, and what each does to the two topics (api/api.go).
use aleart_hub.Base.{
  ℕ, ◌≡◌, ap, Bool, true, false, none, some, [], ◌∷◌, ◌++◌, arith, if◌then◌else◌, Text, text_eq,
}
use aleart_hub.Alert.{Alert, Signer}
use aleart_hub.Server.{
  Server, Outside, Setup, maybe_set_active, retain, signed, post, persist, after_broadcast,
  publish_alert, renew_alert, cancel_alert, clear_active, after_recall, cancel_by_id,
  sweep_expired_active, is_expired,
}

-- One operation of the server, under an outside that `P` describes.
pub data Step (signer : Signer) (setup : Setup signer) (P : Outside → Type 0)
    : Server → Server → Type 0 where
  publishes :
      (io : Outside) (a : Alert) (org : ℕ) (s : Server)
      → P io
      → Step signer setup P s (publish_alert signer setup io a org s).0
  renews :
      (io : Outside) (a : Alert) (org : ℕ) (s : Server)
      → P io
      → Step signer setup P s (renew_alert signer setup io a org s).0
  recalls :
      (io : Outside) (i source : Text) (org : ℕ) (s : Server)
      → P io
      → Step signer setup P s (cancel_by_id signer setup io i source org s).0
  sweeps : (io : Outside) (s : Server) → P io → Step signer setup P s (sweep_expired_active io s)

pub data Reaches (signer : Signer) (setup : Setup signer) (P : Outside → Type 0)
    : Server → Server → Type 0 where
  stays : (s : Server) → Reaches signer setup P s s
  goes :
      (s t u : Server)
      → Reaches signer setup P s t
      → Step signer setup P t u
      → Reaches signer setup P s u

module _ (signer : Signer) (setup : Setup signer) where
  -- What a broadcast does to the topics is what maybeSetActive does.
  abbrev pub SameTopics : Server → Server → Type 0
  SameTopics s t = (s.active ≡ t.active) × (s.retained ≡ t.retained) × (s.events ≡ t.events)

  pub post_topics : (a : Alert) (s : Server) → SameTopics (post signer setup a s) s
  post_topics a s = (ground arith, ground arith, ground arith)

  pub persist_topics :
      (io : Outside) (a : Alert) (org : ℕ) (s : Server)
      → SameTopics (persist signer setup io a org s) s
  persist_topics io a org s = (ground arith, ground arith, ground arith)

  pub broadcast_topics :
      (io : Outside) (a : Alert) (org : ℕ) (s : Server)
      → SameTopics
          (after_broadcast signer setup io a org s)
          (maybe_set_active io a (setup.marshal a) s)
  unfolding after_broadcast
  broadcast_topics io a org s = (ground arith, ground arith, ground arith)

  pub recall_topics :
      (io : Outside) (i : Text) (a : Alert) (org : ℕ) (s : Server)
      → SameTopics (after_recall signer setup io i a org s) (clear_active io i s)
  unfolding after_recall
  recall_topics io i a org s = (ground arith, ground arith, ground arith)

  pub set_active_events :
      (io : Outside) (a : Alert) (p : Text) (s : Server)
      → (maybe_set_active io a p s).events ≡ s.events
  unfolding maybe_set_active
  set_active_events io a p s = ground arith

  pub clear_events :
      (io : Outside) (i : Text) (s : Server) → (clear_active io i s).events ≡ s.events
  unfolding clear_active
  clear_events io i s = ground arith

  abbrev pub broadcast_on : Alert → Server → Server
  broadcast_on a s = record s { events = s.events ++ setup.marshal a ∷ [] }

  pub published_up :
      (io : Outside) (a : Alert) (org : ℕ) (s : Server)
      → io.events_ok ≡ true
      → publish_alert signer setup io a org s ≡ (
        after_broadcast signer setup io
            (signed signer setup a)
            org
            (broadcast_on (signed signer setup a) s),
        true,
      )
  unfolding publish_alert
  published_up io a org s up =
      ap
        (λ (b : Bool).
          if b
          then (
            after_broadcast signer setup io (signed signer setup a) org
                (broadcast_on (signed signer setup a) s),
            true,
          )
          else (s, false))
        up

  pub published_down :
      (io : Outside) (a : Alert) (org : ℕ) (s : Server)
      → io.events_ok ≡ false
      → publish_alert signer setup io a org s ≡ (s, false)
  unfolding publish_alert
  published_down io a org s down = ground arith

  pub recalled_up :
      (io : Outside) (i source : Text) (org : ℕ) (s : Server)
      → io.events_ok ≡ true
      → cancel_by_id signer setup io i source org s ≡ (
        after_recall signer setup io i
            (signed signer setup (cancel_alert io i source))
            org
            (broadcast_on (signed signer setup (cancel_alert io i source)) s),
        some (signed signer setup (cancel_alert io i source)),
      )
  unfolding cancel_by_id
  recalled_up io i source org s up = ground arith

  pub recalled_down :
      (io : Outside) (i source : Text) (org : ℕ) (s : Server)
      → io.events_ok ≡ false
      → cancel_by_id signer setup io i source org s ≡ (s, none)
  unfolding cancel_by_id
  recalled_down io i source org s down = ground arith

pub sweep_none : (io : Outside) (s : Server) → s.active ≡ none → sweep_expired_active io s ≡ s
unfolding sweep_expired_active
sweep_none io s e = ground arith

pub sweep_live :
    (io : Outside) (s : Server) (a : Alert)
    → s.active ≡ some a
    → is_expired io.now a ≡ false
    → sweep_expired_active io s ≡ s
unfolding sweep_expired_active
sweep_live io s a e x = ground arith

pub sweep_over :
    (io : Outside) (s : Server) (a : Alert)
    → s.active ≡ some a
    → is_expired io.now a ≡ true
    → sweep_expired_active io s ≡ retain io [] (record s { active = none })
unfolding sweep_expired_active
sweep_over io s a e x = ground arith

pub sweep_events : (io : Outside) (s : Server) → (sweep_expired_active io s).events ≡ s.events
unfolding sweep_expired_active
sweep_events io s = ground arith
