-- ===== src/Quake/Cancel.antt =====
-- A recalled earthquake stays recalled (server/main.go with eew/dedup.go and api/api.go).
use aleart_hub.Base.{
  ℕ, ◌≡◌, refl, ◌∙◌, ap, Bool, true, false, Option, none, some, List, [], ◌∷◌, ◌++◌, arith, Text,
  text, All, if◌then◌else◌, text_eq, ◌==◌, Bool-cases, inl, inr,
}
use aleart_hub.Alert.{Alert, Signer, sign}
use aleart_hub.Eew.{Event, Seen, on_event, emit}
use aleart_hub.Server.{
  Server, Outside, Setup, holds, signed, publish_alert, renew_alert, cancel_by_id,
}
use aleart_hub.Server.Topics.{published_down, recalled_down}
use aleart_hub.Server.Recall.{recalled_lem}
use aleart_hub.Server.Active.{winner, publish_alert_active}
use aleart_hub.Quake.{quake_id, quake_alert, on_quake, let_through, run_quakes}

winner_other :
    (now : ℕ) (cur : Option Alert) (a : Alert) (i : Text)
    → (a.id == i) ≡ false
    → holds i cur ≡ false
    → holds i (some (winner now cur a)) ≡ false
winner_other now none a i other h = other
winner_other now (some c) a i other h = ground arith

cleared :
    (i j : Text) (cur : Option Alert)
    → holds i cur ≡ false
    → holds i (if holds j cur then none else cur) ≡ false
cleared i j cur h = ground arith

cleared_own : (i : Text) (cur : Option Alert) → holds i (if holds i cur then none else cur) ≡ false
cleared_own i none = refl
cleared_own i (some a) = ground arith

if_true : {A : Type 0} (b : Bool) (x y : A) → b ≡ true → (if b then x else y) ≡ x
if_true true x y h = refl
if_true false x y h = absurd (ground arith)

on_event_recall : (seen : Seen) (ev : Event) → ev.is_cancel ≡ true → (on_event seen ev).1 ≡ some ev
unfolding on_event
on_event_recall seen ev h = ap (λ (r : Seen × Option Event). r.1) (if_true ev.is_cancel _ _ h)

module _ (signer : Signer) (setup : Setup signer) (org : ℕ) where
  signed_id : (a : Alert) (i : Text) → ((signed signer setup a).id == i) ≡ (a.id == i)
  unfolding sign
  signed_id a i = refl

  -- Publishing an alert of another id does not make the alert `i` active.
  publish_other :
      (io : Outside) (a : Alert) (i : Text) (s : Server)
      → (a.id == i) ≡ false
      → holds i s.active ≡ false
      → holds i (publish_alert signer setup io a org s).0.active ≡ false
  publish_other io a i s other h = elim (Bool-cases io.events_ok) [
    | inr down ↦ rw (published_down signer setup io a org s down) h
    | inl up ↦
        let (x, now_active, it, _) = publish_alert_active signer setup io a org s up in
        rw (now_active, it)
          (winner_other io.now s.active (signed signer setup a) i (signed_id a i ∙ other) h)
  ]

  cancel_other :
      (io : Outside) (j i : Text) (s : Server)
      → holds i s.active ≡ false
      → holds i (cancel_by_id signer setup io j (text "eew") org s).0.active ≡ false
  cancel_other io j i s h = elim (Bool-cases io.events_ok) [
    | inr down ↦ rw (recalled_down signer setup io j (text "eew") org s down) h
    | inl up ↦
        rw ((recalled_lem signer setup io j (text "eew") org s up).1) (cleared i j s.active h)
  ]

  quake_other :
      (io : Outside) (ev : Event) (e : Text) (s : Server)
      → (ev.event_id == e) ≡ false
      → holds (quake_id e) s.active ≡ false
      → holds (quake_id e) (on_quake signer setup org io ev s).active ≡ false
  unfolding on_quake renew_alert quake_alert
  quake_other io ev e s other h = elim (Bool-cases ev.is_cancel) [
    | inl recall ↦ rw (on_quake, recall) (cancel_other io (quake_id ev.event_id) (quake_id e) s h)
    | inr alarm ↦ elim (Bool-cases ev.is_upgrade) [
      | inl up ↦ rw (on_quake, alarm, up) (publish_other io _ (quake_id e) s other h)
      | inr first ↦
          rw (on_quake, alarm, first) (publish_other io (quake_alert io ev) (quake_id e) s other h)
    ]
  ]

  passes :
      (io : Outside) (ev : Event) (e : Text) (seen : Seen) (s : Server)
      → (ev.event_id == e) ≡ false
      → holds (quake_id e) s.active ≡ false
      → holds (quake_id e) (let_through signer setup org io (on_event seen ev).1 s).active ≡ false
  unfolding let_through on_event
  passes io ev e seen s other h = elim (Bool-cases ev.is_cancel) [
    | inl recall ↦
        ap (λ o. holds (quake_id e) (let_through signer setup org io o s).active)
          (on_event_recall seen ev recall)
        ∙ quake_other io ev e s other h
    | inr alarm ↦ elim (Bool-cases (emit seen ev.event_id ev.severity).1) [
      | inl new ↦ rw (on_event, alarm, new) (quake_other io _ e s other h)
      | inr old ↦ rw (on_event, alarm, old) h
    ]
  ]

  -- Messages about other earthquakes only.
  abbrev pub IsElsewhere : Text → List (Outside × Event) → Type 0
  IsElsewhere e = All (λ m. (m.1.event_id == e) ≡ false)

  stays_recalled :
      (e : Text) (msgs : List (Outside × Event)) (seen : Seen) (s : Server)
      → IsElsewhere e msgs
      → holds (quake_id e) s.active ≡ false
      → holds (quake_id e) (run_quakes signer setup org msgs (seen, s)).1.active ≡ false
  unfolding run_quakes
  stays_recalled e [] seen s others h = h
  stays_recalled e ((io, ev) ∷ msgs) seen s others h =
      stays_recalled e msgs _ _ others.1 (passes io ev e seen s others.0 h)

  run_quakes-append :
      (ms ns : List (Outside × Event)) (st : Seen × Server)
      → run_quakes signer setup org (ms ++ ns) st
        ≡ run_quakes signer setup org ns (run_quakes signer setup org ms st)
  unfolding run_quakes
  run_quakes-append [] ns st = refl
  run_quakes-append ((io, ev) ∷ ms) ns (seen, s) = run_quakes-append ms ns _

  recalled :
      (io : Outside) (ev : Event) (seen : Seen) (s : Server)
      → ev.is_cancel ≡ true
      → io.events_ok ≡ true
      → holds (quake_id ev.event_id) (let_through signer setup org io (on_event seen ev).1 s).active
        ≡ false
  unfolding let_through on_event on_quake
  recalled io ev seen s recall up =
      let i = quake_id ev.event_id in
      ap (λ o. holds i (let_through signer setup org io o s).active)
        (on_event_recall seen ev recall)
      ∙ ap (λ (t : Server). holds i t.active) (if_true ev.is_cancel _ _ recall)
      ∙ ap (holds i) ((recalled_lem signer setup io i (text "eew") org s up).1)
      ∙ cleared_own i s.active

  -- Whatever the feeds reported before, once a recall of an earthquake goes out its alert is not the
  -- active one, and it does not become active again while the messages are about other earthquakes,
  -- whatever of those the broker and the database take.
  pub recall_sticks :
      (before after : List (Outside × Event)) (io : Outside) (ev : Event) (st : Seen × Server)
      → ev.is_cancel ≡ true
      → io.events_ok ≡ true
      → IsElsewhere ev.event_id after
      → holds
          (quake_id ev.event_id)
          (run_quakes signer setup org (before ++ (io, ev) ∷ after) st).1.active
        ≡ false
  unfolding run_quakes
  recall_sticks before after io ev st recall up others =
      let (seen, s) = run_quakes signer setup org before st in
      ap (λ x. holds (quake_id ev.event_id) x.1.active)
        (run_quakes-append before ((io, ev) ∷ after) st)
      ∙ stays_recalled ev.event_id after _ _ others (recalled io ev seen s recall up)
