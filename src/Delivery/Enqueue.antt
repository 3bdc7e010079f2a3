-- ===== src/Delivery/Enqueue.antt =====
-- Enqueueing is idempotent for an alert id (delivery.go, Enqueue; store/delivery.go).
use mathlib.Core.Path.{fun_ext}
use aleart_hub.Base.{
  ℕ, ◌≡◌, refl, subst, ◌∙◌, sym, Bool, Bool-cases, true, ◌||◌, inl, inr, List, [], ◌∷◌, ◌++◌, map,
  arith, nat_eq, text_eq, text_eqb_iff, Text, All, All-append, any,
}
use aleart_hub.Alert.{Alert}
use aleart_hub.Delivery.{
  Job, Outbox, same_key, enqueue_delivery, Config, Sender, job_for, routed, enqueue_all, enqueue,
  pending,
}

abbrev pub IsQueued : Outbox → Job → Type 0
IsQueued o j = any (same_key j) o.jobs ≡ true

any-append {ℓ} :
    {A : Type ℓ} (p : A → Bool) (xs ys : List A) → any p (xs ++ ys) ≡ any p xs || any p ys
any-append p [] ys = refl
any-append p (x ∷ xs) ys = ground (arith, any-append p xs ys)

same_key_refl :
    (j k : Job)
    → k.alert_id ≡ j.alert_id
    → k.channel ≡ j.channel
    → k.target ≡ j.target
    → same_key j k ≡ true
unfolding same_key
same_key_refl j k a c t = ground (
  arith,
  text_eqb_iff j.alert_id k.alert_id,
  text_eqb_iff j.channel k.channel,
  text_eqb_iff j.target k.target,
)

IsQueued-self : (j : Job) (now : ℕ) (o : Outbox) → IsQueued (enqueue_delivery j now o).0 j
unfolding enqueue_delivery
IsQueued-self j now o = elim (Bool-cases (any (same_key j) o.jobs)) [
  | inl there ↦ rw there there
  | inr fresh ↦ rw fresh (
      any-append (same_key j) o.jobs _
      ∙ ground (
        arith,
        same_key_refl j
            (record j {
              id = o.next_id;
              status = pending;
              attempts = 0;
              next_attempt_at = now;
              last_error = [];
              updated_at = now;
            })
            refl refl refl,
      ))
]

IsQueued-keep :
    (j k : Job) (now : ℕ) (o : Outbox) → IsQueued o k → IsQueued (enqueue_delivery j now o).0 k
unfolding enqueue_delivery
IsQueued-keep j k now o h = elim (Bool-cases (any (same_key j) o.jobs)) [
  | inl there ↦ rw there h
  | inr fresh ↦ rw fresh (any-append (same_key k) o.jobs _ ∙ rw h refl)
]

IsQueued-keep_all :
    (takes : Job → Bool) (js : List Job) (k : Job) (now : ℕ) (o : Outbox)
    → IsQueued o k
    → IsQueued (enqueue_all takes js now o) k
unfolding enqueue_all
IsQueued-keep_all takes [] k now o h = h
IsQueued-keep_all takes (j ∷ js) k now o h = elim (Bool-cases (takes j)) [
  | inl taken ↦
      rw (enqueue_all, taken)
        (IsQueued-keep_all takes js k now (enqueue_delivery j now o).0 (IsQueued-keep j k now o h))
  | inr refused ↦ rw (enqueue_all, refused) (IsQueued-keep_all takes js k now o h)
]

-- The database takes every row.
abbrev pub TakesAll : (Job → Bool) → Type 0
TakesAll takes = (j : Job) → takes j ≡ true

IsQueued-All :
    (takes : Job → Bool) (js : List Job) (now : ℕ) (o : Outbox)
    → TakesAll takes
    → All (IsQueued (enqueue_all takes js now o)) js
unfolding enqueue_all
IsQueued-All takes [] now o all = tt
IsQueued-All takes (j ∷ js) now o all =
    let o' = (enqueue_delivery j now o).0 in
    let e : enqueue_all takes (j ∷ js) now o ≡ enqueue_all takes js now o' =
      rw (enqueue_all, all j) refl in
    subst (λ x. All (IsQueued x) (j ∷ js)) (sym e)
      (
        IsQueued-keep_all takes js j now o' (IsQueued-self j now o),
        IsQueued-All takes js now o' all,
      )

enqueue_all_queued :
    (takes : Job → Bool) (js : List Job) (now : ℕ) (o : Outbox)
    → All (IsQueued o) js
    → enqueue_all takes js now o ≡ o
unfolding enqueue_all enqueue_delivery
enqueue_all_queued takes [] now o h = refl
enqueue_all_queued takes (j ∷ js) now o h = elim (Bool-cases (takes j)) [
  | inl taken ↦ rw (enqueue_all, taken, h.0) (enqueue_all_queued takes js now o h.1)
  | inr refused ↦ rw (enqueue_all, refused) (enqueue_all_queued takes js now o h.1)
]

same_key_cong :
    (j k : Job)
    → j.alert_id ≡ k.alert_id
    → j.channel ≡ k.channel
    → j.target ≡ k.target
    → same_key j ≡ same_key k
unfolding same_key
same_key_cong j k a c t = fun_ext λ x. cc

-- The key of a job does not depend on the payload, the severity or the organisation.
requeued :
    (c : Config) (a b : Alert) (org org' : ℕ) (p p' : Text) (channel : Text) (o : Outbox)
    (ts : List Text)
    → b.id ≡ a.id
    → All (IsQueued o) (map (job_for c a org p channel) ts)
    → All (IsQueued o) (map (job_for c b org' p' channel) ts)
unfolding job_for
requeued c a b org org' p p' channel o [] e h = tt
requeued c a b org org' p p' channel o (t ∷ ts) e h = (
  subst (λ (f : Job → Bool). any f o.jobs ≡ true)
      (same_key_cong (job_for c a org p channel t) (job_for c b org' p' channel t) (sym e) refl
        refl)
      h.0,
  requeued c a b org org' p p' channel o ts e h.1,
)

All-split {ℓ κ} :
    {A : Type ℓ} (P : A → Type κ) (xs ys : List A) → All P (xs ++ ys) → All P xs × All P ys
All-split P [] ys h = (tt, h)
All-split P (x ∷ xs) ys h = let (l, r) = All-split P xs ys h.1 in ((h.0, l), r)

-- The senders route both alerts to the same targets.
abbrev pub SameTargets : List Sender → Alert → Alert → Type 0
SameTargets senders a b = All (λ s. s.targets b ≡ s.targets a) senders

rerouted :
    (c : Config) (ss : List Sender) (a b : Alert) (org org' : ℕ) (p p' : Text) (o : Outbox)
    → b.id ≡ a.id
    → SameTargets ss a b
    → All (IsQueued o) (routed c ss a org p)
    → All (IsQueued o) (routed c ss b org' p')
unfolding routed
rerouted c [] a b org org' p p' o e t h = tt
rerouted c (s ∷ ss) a b org org' p p' o e t h =
    let (here, rest) =
      All-split (IsQueued o) (map (job_for c a org p s.channel) (s.targets a)) (routed c ss a org p)
        h in
    All-append (IsQueued o) (map (job_for c b org' p' s.channel) (s.targets b))
      (routed c ss b org' p')
      (rw (t.0) (requeued c a b org org' p p' s.channel o (s.targets a) e here))
      (rerouted c ss a b org org' p p' o e t.1 rest)

-- Once an alert was enqueued and the database took every row, enqueueing an alert under the same id
-- that routes to the same targets leaves the outbox exactly as it is, whatever its payload, severity and
-- organisation are and whichever rows the database takes then: a renewed alert adds no job for a
-- target of the first.
pub enqueue_again :
    (c : Config) (ss : List Sender) (takes takes' : Job → Bool) (a b : Alert) (org org' : ℕ)
    (p p' : Text) (now now' : ℕ) (o : Outbox)
    → TakesAll takes
    → b.id ≡ a.id
    → SameTargets ss a b
    → enqueue c ss takes' b org' p' now' (enqueue c ss takes a org p now o)
      ≡ enqueue c ss takes a org p now o
unfolding enqueue
enqueue_again c ss takes takes' a b org org' p p' now now' o all e t =
    let js = routed c ss a org p in
    enqueue_all_queued takes' (routed c ss b org' p') now' (enqueue_all takes js now o) (
      rerouted c ss a b org org' p p' (enqueue_all takes js now o) e t
        (IsQueued-All takes js now o all))
