-- ===== src/Delivery/Claim.antt =====
-- What a claim leases (store/delivery.go, ClaimDueDeliveries).
use mathlib.Core.Path.{ap₂}
use aleart_hub.Base.{
  ℕ, zero, suc, ◌+◌, ◌<◌, ◌≤◌, ap, ◌≡◌, ◌≢◌, refl, ◌∙◌, sym, Bool, Bool-cases, true, false, inl,
  inr, List, [], ◌∷◌, map, arith, if◌then◌else◌, ◌==◌, nat_eq, nat_eqb_iff, All, select, take,
}
use aleart_hub.Delivery.{
  Job, Outbox, is_due, insert_by_time, sort_by_time, has_id, picked, leased, claim_due_deliveries,
}

-- No two rows have one id.
abbrev pub IsKeyed : List Job → Type 0
IsKeyed [] = Unit
IsKeyed (j ∷ js) = (has_id j.id js ≡ false) × IsKeyed js

has_id-take : (i n : ℕ) (js : List Job) → has_id i (take n js) ≡ true → has_id i js ≡ true
unfolding has_id
has_id-take i zero js h = cc
has_id-take i (suc n) [] h = h
has_id-take i (suc n) (j ∷ js) h = ground (arith, has_id-take i n js)

has_id-insert :
    (i : ℕ) (j : Job) (js : List Job) → has_id i (insert_by_time j js) ≡ has_id i (j ∷ js)
unfolding has_id insert_by_time
has_id-insert i j [] = refl
has_id-insert i j (k ∷ ks) = ground (arith, has_id-insert i j ks)

has_id-sort : (i : ℕ) (js : List Job) → has_id i (sort_by_time js) ≡ has_id i js
unfolding sort_by_time has_id
has_id-sort i [] = refl
has_id-sort i (j ∷ js) = has_id-insert i j (sort_by_time js) ∙ ground (arith, has_id-sort i js)

pub has_id-select :
    (p : Job → Bool) (i : ℕ) (js : List Job) → has_id i (select p js) ≡ true → has_id i js ≡ true
unfolding has_id
has_id-select p i [] h = h
has_id-select p i (j ∷ js) h = ground (arith, has_id-select p i js)

pub absent : (i : ℕ) (js : List Job) → has_id i js ≡ false → All (λ k. k.id ≢ i) js
unfolding has_id
absent i [] h = tt
absent i (j ∷ js) h = (ground arith, absent i js (ground arith))

-- Where ids are distinct, a row whose id is among the selected rows is selected itself.
selected_at :
    (p : Job → Bool) (j : Job) (js : List Job)
    → has_id j.id js ≡ false
    → has_id j.id (select p (j ∷ js)) ≡ true
    → p j ≡ true
unfolding has_id
selected_at p j js h k = ground (arith, has_id-select p j.id js)

selected_tail :
    (p : Job → Bool) (j : Job) (js ks : List Job)
    → All (λ k. k.id ≢ j.id) ks
    → All (λ k. has_id k.id (select p js) ≡ true → p k ≡ true) ks
    → All (λ k. has_id k.id (select p (j ∷ js)) ≡ true → p k ≡ true) ks
unfolding has_id
selected_tail p j js [] a h = tt
selected_tail p j js (k ∷ ks) a h = ((λ e. h.0 (ground arith)), selected_tail p j js ks a.1 h.1)

pub selected :
    (p : Job → Bool) (js : List Job)
    → IsKeyed js
    → All (λ k. has_id k.id (select p js) ≡ true → p k ≡ true) js
selected p [] h = tt
selected p (j ∷ js) h =
    (selected_at p j js h.0, selected_tail p j js js (absent j.id js h.0) (selected p js h.1))

pub All-map {ℓ κ ι} :
    {A : Type ℓ} (P : A → Type κ) (Q : A → Type ι) (xs : List A)
    → ((x : A) → P x → Q x)
    → All P xs
    → All Q xs
All-map P Q [] f h = tt
All-map P Q (x ∷ xs) f h = (f x h.0, All-map P Q xs f h.1)

-- Only rows that are due are picked.
pub picked_due :
    (now limit : ℕ) (o : Outbox)
    → IsKeyed o.jobs
    → All (λ j. has_id j.id (picked now limit o) ≡ true → is_due now j ≡ true) o.jobs
unfolding picked
picked_due now limit o h =
    All-map _ _ o.jobs
      (λ j f e. f (
        sym (has_id-sort j.id (select (is_due now) o.jobs))
        ∙ has_id-take j.id limit (sort_by_time (select (is_due now) o.jobs)) e))
      (selected (is_due now) o.jobs h)

pub has_id-leased :
    (now lease i : ℕ) (js : List Job) → has_id i (map (leased now lease) js) ≡ has_id i js
unfolding has_id leased
has_id-leased now lease i [] = refl
has_id-leased now lease i (j ∷ js) = ground (arith, has_id-leased now lease i js)

has_id-among :
    (i : ℕ) (chosen js : List Job)
    → has_id i (select (λ j. has_id j.id chosen) js) ≡ true
    → has_id i chosen ≡ true
has_id-among i chosen [] h = absurd (let e : false ≡ true = unfold has_id in h in cc)
has_id-among i chosen (j ∷ js) h = elim (Bool-cases (has_id j.id chosen)) [
  | inr out ↦ has_id-among i chosen js (rw out at h)
  | inl among ↦ elim (Bool-cases (j.id == i)) [
    | inl same ↦ rw ((nat_eqb_iff j.id i).0 same) at among
    | inr other ↦ has_id-among i chosen js (later among other)
  ]
]
  where
    later :
        has_id j.id chosen ≡ true
        → (j.id == i) ≡ false
        → has_id i (select (λ j. has_id j.id chosen) js) ≡ true
    later among other = let k = rw among at h in unfold has_id in ground arith

-- The rows after the UPDATE of a claim.
abbrev pub claimed_row : ℕ → ℕ → List Job → Job → Job
claimed_row now lease chosen j = if has_id j.id chosen then leased now lease j else j

claimed_row_id :
    (now lease : ℕ) (chosen : List Job) (j : Job) → (claimed_row now lease chosen j).id ≡ j.id
unfolding leased
claimed_row_id now lease chosen j = ground arith

pub has_id_cong :
    (i : ℕ) (j k : Job) (js ks : List Job)
    → j.id ≡ k.id
    → has_id i js ≡ has_id i ks
    → has_id i (j ∷ js) ≡ has_id i (k ∷ ks)
unfolding has_id
has_id_cong i j k js ks e h = ap₂ (λ (n : ℕ) (b : Bool). if n == i then true else b) e h

has_id-claimed :
    (now lease i : ℕ) (chosen js : List Job)
    → has_id i (map (claimed_row now lease chosen) js) ≡ has_id i js
has_id-claimed now lease i chosen [] = unfold has_id in refl
has_id-claimed now lease i chosen (j ∷ js) =
    has_id_cong i (claimed_row now lease chosen j) j (map (claimed_row now lease chosen) js) js
      (claimed_row_id now lease chosen j) (has_id-claimed now lease i chosen js)

-- The rows of id `i` are not due before `until`.
abbrev IsHeld : ℕ → ℕ → List Job → Type 0
IsHeld i until js = All (λ j. j.id ≡ i → until ≤ j.next_attempt_at) js

held_out :
    (i until t : ℕ) (js : List Job)
    → t < until
    → IsHeld i until js
    → has_id i (select (is_due t) js) ≡ false
unfolding has_id is_due
held_out i until t [] h held = refl
held_out i until t (j ∷ js) h held = ground (arith, held_out i until t js h held.1)

not_picked :
    (i until t limit : ℕ) (o : Outbox)
    → t < until
    → IsHeld i until o.jobs
    → has_id i (picked t limit o) ≡ false
unfolding picked
not_picked i until t limit o h held = elim (Bool-cases (has_id i (picked t limit o))) [
  | inr out ↦ out
  | inl there ↦
      let due =
        sym (has_id-sort i (select (is_due t) o.jobs))
        ∙ has_id-take i limit (sort_by_time (select (is_due t) o.jobs)) there in
      absurd (cc (due, held_out i until t o.jobs h held))
]

not_returned :
    (t lease i : ℕ) (chosen js : List Job)
    → has_id i chosen ≡ false
    → has_id i (map (leased t lease) (select (λ k. has_id k.id chosen) js)) ≡ false
not_returned t lease i chosen js out =
    elim (Bool-cases (has_id i (map (leased t lease) (select (λ k. has_id k.id chosen) js)))) [
      | inr free ↦ free
      | inl there ↦
          let among =
            has_id-among i chosen js
              (sym (has_id-leased t lease i (select (λ k. has_id k.id chosen) js)) ∙ there) in
          absurd (cc (among, out))
    ]

still-IsHeld :
    (t lease i until : ℕ) (chosen js : List Job)
    → has_id i chosen ≡ false
    → IsHeld i until js
    → IsHeld i until (map (claimed_row t lease chosen) js)
still-IsHeld t lease i until chosen [] out held = tt
still-IsHeld t lease i until chosen (j ∷ js) out held = (
  elim (Bool-cases (has_id j.id chosen)) [
    | inr free ↦ rw free (held.0)
    | inl taken ↦
        λ same. absurd (let e = sym (claimed_row_id t lease chosen j) ∙ same in cc (taken, out, e))
  ],
  still-IsHeld t lease i until chosen js out held.1,
)

-- A claim holds the rows that it picks until its lease is over.
first-IsHeld :
    (now lease i : ℕ) (chosen js : List Job)
    → has_id i chosen ≡ true
    → IsHeld i (now + lease) (map (claimed_row now lease chosen) js)
first-IsHeld now lease i chosen [] h = tt
first-IsHeld now lease i chosen (j ∷ js) h = (
  λ same.
      let e = sym (claimed_row_id now lease chosen j) ∙ same in
      let taken : has_id j.id chosen ≡ true = ap (λ n. has_id n chosen) e ∙ h in
      rw taken (unfold leased in omega arith),
  first-IsHeld now lease i chosen js h,
)

pub record Claim : Type 0 where
  pub at : ℕ
  pub lease : ℕ
  pub limit : ℕ

-- What each of a run of claims returns.
abbrev pub run_claims : List Claim → Outbox → List (List Job)
run_claims [] o = []
run_claims (c ∷ cs) o =
    let (o', jobs) = claim_due_deliveries c.at c.lease c.limit o in jobs ∷ run_claims cs o'

never_returned :
    (i until : ℕ) (cs : List Claim) (o : Outbox)
    → All (λ c. c.at < until) cs
    → IsHeld i until o.jobs
    → All (λ jobs. has_id i jobs ≡ false) (run_claims cs o)
unfolding claim_due_deliveries
never_returned i until [] o early held = tt
never_returned i until (c ∷ cs) o early held =
    let out = not_picked i until c.at c.limit o early.0 held in
    (
      not_returned c.at c.lease i (picked c.at c.limit o) o.jobs out,
      never_returned i until cs (claim_due_deliveries c.at c.lease c.limit o).0 early.1
          (still-IsHeld c.at c.lease i until (picked c.at c.limit o) o.jobs out held),
    )

-- A row that a claim returns is returned by none of the claims that follow it before its lease is
-- over, however many they are and whatever their leases and limits, as long as nothing but claims
-- changes the table in between: neither a write of the delivery nor a new row.
pub claim_exclusive :
    (now lease limit i : ℕ) (cs : List Claim) (o : Outbox)
    → All (λ c. c.at < now + lease) cs
    → has_id i (claim_due_deliveries now lease limit o).1 ≡ true
    → All (λ jobs. has_id i jobs ≡ false) (run_claims cs (claim_due_deliveries now lease limit o).0)
unfolding claim_due_deliveries
claim_exclusive now lease limit i cs o early first =
    let chosen = picked now limit o in
    let taken =
      has_id-among i chosen o.jobs
        (sym (has_id-leased now lease i (select (λ k. has_id k.id chosen) o.jobs)) ∙ first) in
    never_returned i (now + lease) cs (claim_due_deliveries now lease limit o).0 early
      (first-IsHeld now lease i chosen o.jobs taken)
