-- ===== src/Eew/Dedup.antt =====
-- The deduper against the history of reports (dedup.go, and runFeed's use of it).
use aleart_hub.Base.{
  ℕ, suc, ◌+◌, ◌≤◌, ◌<◌, ◌≡◌, ◌≢◌, refl, ◌↔◌, ◌⊎◌, inl, inr, Bool-cases, true, false, ltb→lt, ◌-◌,
  Option, none, some, List, [], ◌∷◌, arith, ltb, if◌then◌else◌, ◌==◌, text_eq, text_eqb_iff, Text,
  All, no_keys,
}
use aleart_hub.Eew.{Event, Seen, rank, emit, forget, on_event, feed}

-- The ranks that were reported for event `k` since its last cancel, newest first.
abbrev pub since : Text → List ℕ → List Event → List ℕ
since k acc [] = acc
since k acc (e ∷ es) =
    since k (if k == e.event_id then if e.is_cancel then [] else rank e.severity ∷ acc else acc) es

abbrev pub maximum : List ℕ → Option ℕ
maximum [] = none
maximum (r ∷ rs) = elim (maximum rs) [ none ↦ some r | some m ↦ some (if ltb m r then r else m) ]

step_seen :
    (seen : Seen) (ev : Event) (k : Text) (acc : List ℕ)
    → seen k ≡ maximum acc
    → (on_event seen ev).0 k
      ≡ maximum
          (if k == ev.event_id then if ev.is_cancel then [] else rank ev.severity ∷ acc else acc)
unfolding on_event emit forget
step_seen seen ev k acc h = ground (arith, text_eqb_iff k ev.event_id)

pub feed_seen :
    (seen : Seen) (evs : List Event) (k : Text) (acc : List ℕ)
    → seen k ≡ maximum acc
    → (feed seen evs).0 k ≡ maximum (since k acc evs)
unfolding feed
feed_seen seen [] k acc h = h
feed_seen seen (ev ∷ evs) k acc h =
    feed_seen (on_event seen ev).0 evs k _ (step_seen seen ev k acc h)

-- `r` is above the maximum, if there is one.
abbrev Tops : ℕ → Option ℕ → Type 0
Tops r none = Unit
Tops r (some m) = m < r

Tops-maximum : (rs : List ℕ) (r : ℕ) → Tops r (maximum rs) ↔ All (λ m. m < r) rs
Tops-maximum [] r = ((λ h. tt), (λ h. tt))
Tops-maximum (x ∷ rs) r =
    let (to, from) = Tops-maximum rs r in (split x (maximum rs) to, joined x (maximum rs) from)
  where
    split :
        (x : ℕ) (o : Option ℕ)
        → (Tops r o → All (λ m. m < r) rs)
        → Tops r (elim o [ none ↦ some x | some m ↦ some (if ltb m x then x else m) ])
        → (x < r) × All (λ m. m < r) rs
    split x none f h = (h, f tt)
    split x (some m) f h = (ground arith, f (ground arith))

    joined :
        (x : ℕ) (o : Option ℕ)
        → (All (λ m. m < r) rs → Tops r o)
        → (x < r) × All (λ m. m < r) rs
        → Tops r (elim o [ none ↦ some x | some m ↦ some (if ltb m x then x else m) ])
    joined x none f h = h.0
    joined x (some m) f h =
        let below = f h.1 in
        elim (Bool-cases (ltb m x)) [ inl up ↦ rw up (h.0) | inr down ↦ rw down below ]

published_at :
    (seen : Seen) (ev : Event) (o : Option ℕ)
    → seen ev.event_id ≡ o
    → ((on_event seen ev).1 ≢ none) ↔ ((ev.is_cancel ≡ true) ⊎ Tops (rank ev.severity) o)
unfolding on_event emit
published_at seen ev none e = elim (Bool-cases ev.is_cancel) [
  | inl c ↦ ((λ h. inl c), (λ h. ground arith))
  | inr c ↦ ((λ h. inr tt), (λ h. ground arith))
]
published_at seen ev (some m) e = elim (Bool-cases ev.is_cancel) [
  | inl c ↦ ((λ h. inl c), (λ h. ground arith))
  | inr c ↦ elim (Bool-cases (ltb m (rank ev.severity))) [
    | inl up ↦ ((λ h. inr (ltb→lt m (rank ev.severity) up)), (λ h. ground arith))
    | inr down ↦ ((λ h. absurd (ground arith)), (λ h. ground arith))
  ]
]

-- After any reports, of both relays in any order, a report is published exactly when it is a
-- cancel or its rank is above every rank that was reported for its event since the last cancel.
pub on_event_published :
    (evs : List Event) (ev : Event)
    → ((on_event (feed no_keys evs).0 ev).1 ≢ none)
      ↔ ((ev.is_cancel ≡ true) ⊎ All (λ r. r < rank ev.severity) (since ev.event_id [] evs))
on_event_published evs ev =
    let (to, from) = Tops-maximum (since ev.event_id [] evs) (rank ev.severity) in
    let (out, back) =
      published_at (feed no_keys evs).0 ev (maximum (since ev.event_id [] evs))
        (feed_seen no_keys evs ev.event_id [] refl) in
    (
      λ h. elim (out h) [ inl c ↦ inl c | inr t ↦ inr (to t) ],
      λ h. back (elim h [ inl c ↦ inl c | inr t ↦ inr (from t) ]),
    )

-- How many alarms event `k` can still raise without a cancel.
abbrev room : Option ℕ → ℕ
room none = 4
room (some r) = 3 - r

rank-le : (s : Text) → rank s ≤ 3
unfolding rank
rank-le s = ground arith

-- The published alerts of event `k`.
abbrev pub alarms : Text → List Event → ℕ
alarms k [] = 0
alarms k (e ∷ es) = if k == e.event_id then suc (alarms k es) else alarms k es

-- No cancel for event `k`.
abbrev pub NoCancel : Text → List Event → Type 0
NoCancel k = All (λ e. (k ≡ e.event_id) → e.is_cancel ≡ false)

step_room :
    (k : Text) (seen : Seen) (ev : Event)
    → (k ≡ ev.event_id → ev.is_cancel ≡ false)
    → elim (on_event seen ev).1 as (λ _. ℕ) [ none ↦ 0 | some e ↦ if k == e.event_id then 1 else 0 ]
        + room ((on_event seen ev).0 k)
      ≤ room (seen k)
unfolding on_event emit forget
step_room k seen ev h = elim (Bool-cases (k == ev.event_id)) [
  | inl same ↦ ground (
    arith,
    h ((text_eqb_iff k ev.event_id).0 same),
    rank-le ev.severity,
    same,
    text_eqb_iff k ev.event_id,
  )
  | inr other ↦ ground (arith, rank-le ev.severity, other)
]

alarms-feed :
    (k : Text) (seen : Seen) (evs : List Event)
    → NoCancel k evs
    → alarms k (feed seen evs).1 + room ((feed seen evs).0 k) ≤ room (seen k)
unfolding feed
alarms-feed k seen [] h = omega arith
alarms-feed k seen (ev ∷ evs) h =
    ground (arith, step_room k seen ev h.0, alarms-feed k (on_event seen ev).0 evs h.1)

-- However often and in whatever order the relays report one earthquake, it raises at most four
-- alarms as long as it is not cancelled.
pub alarms-le-four :
    (k : Text) (evs : List Event) → NoCancel k evs → alarms k (feed no_keys evs).1 ≤ 4
alarms-le-four k evs h = omega (arith, alarms-feed k no_keys evs h)
