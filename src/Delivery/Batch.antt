-- ===== src/Delivery/Batch.antt =====
-- One batch of the worker, row by row (delivery.go, processBatch and deliver).
use mathlib.Core.Path.{fun_ext}
use aleart_hub.Base.{
  ◌&&◌, not, any, none, some, leb, text_eq, ◌++◌, text, length, take, ◌+◌, ◌≤◌, zero, suc, ℕ, ◌/◌,
  ◌≡◌, refl, ap, ◌∙◌, sym, Bool, Bool-cases, Option-cases, true, false, inl, inr, List, [], ◌∷◌,
  map, arith, if◌then◌else◌, ◌==◌, nat_eq, nat_eqb_iff, All, select,
}
use aleart_hub.Delivery.{
  Job, Outbox, has_id, picked, leased, update_row, Config, second, Sender, World, outcome, deliver,
  deliver_all, process_batch, claim_due_deliveries, as_sent, as_dead, as_rescheduled, Status,
  is_pending, has_sender, backoff, pending, sent, dead, is_due, sort_by_time, insert_by_time,
}
use aleart_hub.Delivery.Claim.{
  IsKeyed, All-map, picked_due, has_id_cong, has_id-select, has_id-leased,
}

length-take :
    (n : ℕ) (js : List Job) → length (take n js) ≡ (if leb n (length js) then n else length js)
length-take zero js = ground arith
length-take (suc n) [] = ground arith
length-take (suc n) (j ∷ js) = ground (arith, length-take n js)

length-insert_by_time : (j : Job) (js : List Job) → length (insert_by_time j js) ≡ length js + 1
unfolding insert_by_time
length-insert_by_time j [] = omega arith
length-insert_by_time j (k ∷ ks) = ground (arith, length-insert_by_time j ks)

length-sort_by_time : (js : List Job) → length (sort_by_time js) ≡ length js
unfolding sort_by_time
length-sort_by_time [] = refl
length-sort_by_time (j ∷ js) =
    omega (arith, length-insert_by_time j (sort_by_time js), length-sort_by_time js)

map_same : (js : List Job) → js ≡ map (λ j. j) js
map_same [] = refl
map_same (j ∷ js) = ap (λ ks. j ∷ ks) (map_same js)

pending_lem : (s : Status) → is_pending s ≡ true → s ≡ pending
pending_lem pending h = refl
pending_lem sent h = absurd (ground arith)
pending_lem dead h = absurd (ground arith)

due_row :
    (now : ℕ) (j : Job) → is_due now j ≡ true → (j.status ≡ pending) × (j.next_attempt_at ≤ now)
unfolding is_due
due_row now j due = (pending_lem j.status (ground arith), ground arith)

length-picked :
    (now limit : ℕ) (o : Outbox)
    → let n = length (select (λ j. is_pending j.status && leb j.next_attempt_at now) o.jobs) in
      length (picked now limit o) ≡ (if leb limit n then limit else n)
unfolding picked is_due
length-picked now limit o =
    length-take limit (sort_by_time (select (is_due now) o.jobs))
    ∙ ap (λ n. if leb limit n then limit else n) (length-sort_by_time (select (is_due now) o.jobs))

abbrev consed : Job → Outbox → Outbox
consed x o = record o { jobs = x ∷ o.jobs }

update_absent :
    (i : ℕ) (f : Job → Job) (js : List Job)
    → has_id i js ≡ false
    → map (λ j. if j.id == i then f j else j) js ≡ js
unfolding has_id
update_absent i f [] h = refl
update_absent i f (j ∷ js) h = ground (arith, update_absent i f js)

module _ (c : Config) (ss : List Sender) (w : World) (now : ℕ) where
  abbrev lease_s : ℕ
  lease_s = c.lease / second

  -- What a batch does to a row that it claims: the lease, the attempt, and its outcome if the
  -- write succeeds.
  abbrev pub attempted : Job → Job
  attempted j = let l = leased now lease_s j in if w.written l then outcome c ss w now l l else l

  outcome_id : (j k : Job) → (outcome c ss w now j k).id ≡ k.id
  unfolding outcome as_sent as_dead as_rescheduled
  outcome_id j k = ground arith

  attempted_id : (j : Job) → (attempted j).id ≡ j.id
  attempted_id j = elim (Bool-cases (w.written (leased now lease_s j))) [
    | inl done ↦
        rw done (outcome_id (leased now lease_s j) (leased now lease_s j) ∙ (unfold leased in refl))
    | inr lost ↦ rw lost (unfold leased in refl)
  ]

  deliver_skip :
      (l x : Job) (o : Outbox)
      → (x.id == l.id) ≡ false
      → deliver c ss w now l (consed x o) ≡ consed x (deliver c ss w now l o)
  unfolding deliver update_row
  deliver_skip l x o h = ground arith

  deliver_all_skip :
      (ls : List Job) (x : Job) (o : Outbox)
      → All (λ l. (x.id == l.id) ≡ false) ls
      → deliver_all c ss w now ls (consed x o) ≡ consed x (deliver_all c ss w now ls o)
  unfolding deliver_all
  deliver_all_skip [] x o h = refl
  deliver_all_skip (l ∷ ls) x o h =
      ap (deliver_all c ss w now ls) (deliver_skip l x o h.0)
      ∙ deliver_all_skip ls x (deliver c ss w now l o) h.1

  update_here :
      (l : Job) (g : Job → Job) (o : Outbox)
      → has_id l.id o.jobs ≡ false
      → update_row l.id g (consed l o) ≡ consed (g l) o
  unfolding update_row
  update_here l g o h = ground (arith, update_absent l.id g o.jobs h, nat_eqb_iff l.id l.id)

  -- The claimed row is found and rewritten, and no other row is touched.
  deliver_here :
      (l : Job) (o : Outbox)
      → has_id l.id o.jobs ≡ false
      → deliver c ss w now l (consed l o)
        ≡ consed (if w.written l then outcome c ss w now l l else l) o
  unfolding deliver
  deliver_here l o h = elim (Bool-cases (w.written l)) [
    | inl done ↦ rw done (update_here l (outcome c ss w now l) o h)
    | inr lost ↦ rw lost
  ]

  leased_id : (j : Job) → (leased now lease_s j).id ≡ j.id
  unfolding leased
  leased_id j = refl

  apart : (i : ℕ) (ls : List Job) → has_id i ls ≡ false → All (λ l. (i == l.id) ≡ false) ls
  unfolding has_id
  apart i [] h = tt
  apart i (l ∷ ls) h = (ground arith, apart i ls (ground arith))

  module _ (p : Job → Bool) where
    abbrev lease_row : Job → Job
    lease_row j = if p j then leased now lease_s j else j

    abbrev batch_row : Job → Job
    batch_row j = if p j then attempted j else j

    lease_row_id : (j : Job) → (lease_row j).id ≡ j.id
    unfolding leased
    lease_row_id j = ground arith

    has_id-lease_row : (i : ℕ) (js : List Job) → has_id i (map lease_row js) ≡ has_id i js
    has_id-lease_row i [] = unfold has_id in refl
    has_id-lease_row i (j ∷ js) =
        has_id_cong i (lease_row j) j (map lease_row js) js (lease_row_id j) (has_id-lease_row i js)

    not_claimed :
        (i : ℕ) (js : List Job)
        → has_id i js ≡ false
        → has_id i (map (leased now lease_s) (select p js)) ≡ false
    not_claimed i js h = elim (Bool-cases (has_id i (map (leased now lease_s) (select p js)))) [
      | inr no' ↦ no'
      | inl yes' ↦
          absurd
            (cc (h, has_id-select p i js (sym (has_id-leased now lease_s i (select p js)) ∙ yes')))
    ]

    abbrev IsBatched : ℕ → List Job → Type 0
    IsBatched n js =
        deliver_all c ss w now (map (leased now lease_s) (select p js))
          (record { jobs = map lease_row js; next_id = n })
        ≡ record { jobs = map batch_row js; next_id = n }

    batch_out :
        (n : ℕ) (j : Job) (js : List Job)
        → has_id j.id js ≡ false
        → IsBatched n js
        → p j ≡ false
        → IsBatched n (j ∷ js)
    batch_out n j js h ih out = rw out (
        deliver_all_skip _ j (record { jobs = map lease_row js; next_id = n })
          (apart j.id _ (not_claimed j.id js h))
        ∙ ap (consed j) ih)

    batch_taken :
        (n : ℕ) (j : Job) (js : List Job)
        → has_id j.id js ≡ false
        → IsBatched n js
        → p j ≡ true
        → IsBatched n (j ∷ js)
    unfolding deliver_all
    batch_taken n j js h ih taken = rw taken (
        ap (deliver_all c ss w now (map (leased now lease_s) (select p js))) (
          deliver_here (leased now lease_s j) (record { jobs = map lease_row js; next_id = n })
            (ap (λ i. has_id i (map lease_row js)) (leased_id j) ∙ has_id-lease_row j.id js ∙ h))
        ∙ deliver_all_skip _ (attempted j) (record { jobs = map lease_row js; next_id = n })
            (apart (attempted j).id _ (
              ap (λ i. has_id i (map (leased now lease_s) (select p js))) (attempted_id j)
              ∙ not_claimed j.id js h))
        ∙ ap (consed (attempted j)) ih)

    pub batch_rows : (n : ℕ) (js : List Job) → IsKeyed js → IsBatched n js
    batch_rows n [] h = unfold deliver_all in refl
    batch_rows n (j ∷ js) h = elim (Bool-cases (p j)) [
      | inr out ↦ batch_out n j js h.0 (batch_rows n js h.1) out
      | inl taken ↦ batch_taken n j js h.0 (batch_rows n js h.1) taken
    ]

  pub process_batch_rows :
      (o : Outbox)
      → IsKeyed o.jobs
      → w.claims ≡ true
      → (process_batch c ss w now o).0 ≡ record o {
        jobs = map (λ j. if has_id j.id (picked now c.batch o) then attempted j else j) o.jobs;
      }
  unfolding process_batch claim_due_deliveries deliver_all outcome deliver
  process_batch_rows o h up =
      rw up (batch_rows (λ j. has_id j.id (picked now c.batch o)) o.next_id o.jobs h)

  -- A row after its attempt: leased, if the write of the outcome fails; dead without a sender for its
  -- channel; sent, if the channel takes it; and else dead after the last attempt that it has, or
  -- pending until its backoff is over, with the channel's error.
  abbrev pub after_attempt : Job → Job
  after_attempt j =
      let l = record j {
        attempts = j.attempts + 1;
        next_attempt_at = now + c.lease / second;
        updated_at = now;
      } in
      if not (w.written l)
      then l
      else if not (any (λ s. s.channel == j.channel) ss)
      then record l { status = dead; last_error = text "no sender for channel " ++ j.channel }
      else elim (w.send l) [
        | none ↦ record l { status = sent; last_error = [] }
        | some e ↦
            if leb j.max_attempts (j.attempts + 1)
            then record l { status = dead; last_error = e }
            else record l {
              next_attempt_at = now + backoff c (j.attempts + 1) / second;
              last_error = e;
            }
      ]

  attempted_after : (j : Job) → attempted j ≡ after_attempt j
  unfolding outcome has_sender as_sent as_dead as_rescheduled leased
  attempted_after j = elim (Bool-cases (w.written (leased now lease_s j))) [
    | inr lost ↦ rw lost refl
    | inl done ↦ elim (Bool-cases (any (λ s. s.channel == j.channel) ss)) [
      | inr unknown ↦ rw (done, unknown) refl
      | inl known ↦ elim (Option-cases (w.send (leased now lease_s j))) [
        | inl taken ↦ rw (done, known, taken) refl
        | inr (e, refused) ↦ elim (Bool-cases (leb j.max_attempts (j.attempts + 1))) [
          | inl last ↦ rw (done, known, refused, last) refl
          | inr more ↦ rw (done, known, refused, more) refl
        ]
      ]
    ]
  ]

  batch_jobs :
      (o : Outbox) (b : Bool)
      → IsKeyed o.jobs
      → w.claims ≡ b
      → (process_batch c ss w now o).0.jobs
        ≡ map (λ j. if b && has_id j.id (picked now c.batch o) then after_attempt j else j) o.jobs
  unfolding process_batch
  batch_jobs o true h up =
      ap (λ r. r.jobs) (process_batch_rows o h up)
      ∙ ap (λ f. map f o.jobs)
          (fun_ext
            λ j. ap (λ k. if has_id j.id (picked now c.batch o) then k else j) (attempted_after j))
  batch_jobs o false h down =
      let same : process_batch c ss w now o ≡ (o, 0) = rw down refl in
      ap (λ r. r.0.jobs) same ∙ map_same o.jobs

  -- Where no two rows have one id, a batch whose claim goes through changes only the rows that it
  -- picks, which are pending and due, and as many of these as there are, up to the batch size; each
  -- of them is leased and attempted once and left as that attempt says, whatever the channels
  -- answer and whichever writes fail. A batch whose claim fails changes nothing.
  pub process_batch_lem :
      (o : Outbox)
      → IsKeyed o.jobs
      → let n = length (select (λ j. is_pending j.status && leb j.next_attempt_at now) o.jobs) in
        ((process_batch c ss w now o).0.jobs
          ≡ map
              (λ j. if w.claims && has_id j.id (picked now c.batch o) then after_attempt j else j)
              o.jobs)
        × All
            (λ j.
              has_id j.id (picked now c.batch o) ≡ true
              → (j.status ≡ pending) × (j.next_attempt_at ≤ now))
            o.jobs
        × (length (picked now c.batch o) ≡ (if leb c.batch n then c.batch else n))
  process_batch_lem o h = (
    batch_jobs o w.claims h refl,
    All-map _ _ o.jobs (λ j due e. due_row now j (due e)) (picked_due now c.batch o h),
    length-picked now c.batch o,
  )
