-- ===== src/Delivery/Life.antt =====
-- The life of a row over many batches (delivery.go, processBatch and deliver).
use aleart_hub.Base.{
  ℕ, zero, suc, ◌+◌, ◌<◌, ◌≤◌, ◌/◌, ◌≡◌, refl, ap, ◌∙◌, true, false, List, [], ◌∷◌, map, arith,
  some, if◌then◌else◌, leb, ◌==◌, nat_eq, nat_eqb_iff, All, length, Text,
}
use aleart_hub.Delivery.{
  Job, Outbox, pending, dead, has_id, picked, leased, Config, second, Sender, World, outcome,
  process_batch, has_sender, as_dead, as_rescheduled, is_due, sort_by_time, insert_by_time,
}
use aleart_hub.Delivery.Claim.{IsKeyed, picked_due, All-map}
use aleart_hub.Delivery.Batch.{attempted, process_batch_rows}

-- The batches that a worker runs at the given times.
abbrev pub run_batches : Config → List Sender → World → List ℕ → Outbox → Outbox
run_batches c ss w [] o = o
run_batches c ss w (t ∷ ts) o = run_batches c ss w ts (process_batch c ss w t o).0

module _ (c : Config) (ss : List Sender) (w : World) where
  -- A batch is a function on rows that changes no row which is not due: a row that is sent or dead
  -- stays as it is, and so does a pending row before its time.
  pub process_batch_settled :
      (now : ℕ) (o : Outbox)
      → IsKeyed o.jobs
      → w.claims ≡ true
      → (f : Job → Job) × ((process_batch c ss w now o).0.jobs ≡ map f o.jobs)
        × All (λ j. is_due now j ≡ false → f j ≡ j) o.jobs
  process_batch_settled now o h up = (
    λ j. if has_id j.id (picked now c.batch o) then attempted c ss w now j else j,
    ap (λ r. r.jobs) (process_batch_rows c ss w now o h up),
    All-map _ _ o.jobs (λ j d e. ground arith) (picked_due now c.batch o h),
  )

  -- The times of batches, each of which finds the row due.
  abbrev pub IsRipe : List ℕ → Job → Type 0
  IsRipe [] j = Unit
  IsRipe (t ∷ ts) j = (is_due t j ≡ true) × IsRipe ts (attempted c ss w t j)

  abbrev pub attempted_all : List ℕ → Job → Job
  attempted_all [] j = j
  attempted_all (t ∷ ts) j = attempted_all ts (attempted c ss w t j)

  -- A row after one more failed attempt.
  abbrev IsFailed : Job → Job → Type 0
  IsFailed j k =
      (k.attempts ≡ j.attempts + 1)
      × (k.max_attempts ≡ j.max_attempts)
      × (k.channel ≡ j.channel)
      × (k.status ≡ (if leb j.max_attempts (j.attempts + 1) then dead else j.status))

  abbrev DoesFail : Type 0
  DoesFail =
      (w.claims ≡ true) × ((k : Job) → (w.written k ≡ true) × (e : Text) × (w.send k ≡ some e))

  attempted-IsFailed :
      (t : ℕ) (j : Job)
      → DoesFail
      → has_sender ss j.channel ≡ true
      → IsFailed j (attempted c ss w t j)
  unfolding outcome as_dead as_rescheduled leased
  attempted-IsFailed t j d h =
      let (r, e, f) = d.1 (leased t (c.lease / second) j) in rw (r, h, f) (ground arith)

  -- A pending row whose sends all fail has counted each attempt, and is dead exactly when the
  -- attempts have reached the row's limit.
  abbrev IsSpent : ℕ → Job → Job → Type 0
  IsSpent n j k =
      (k.attempts ≡ j.attempts + n)
      × (k.status ≡ (if leb j.max_attempts (j.attempts + n) then dead else pending))

  all_failed :
      (t : ℕ) (ts : List ℕ) (j : Job)
      → DoesFail
      → has_sender ss j.channel ≡ true
      → j.status ≡ pending
      → j.attempts + length ts < j.max_attempts
      → IsSpent (length ts + 1) j (attempted_all (t ∷ ts) j)
  all_failed t [] j d h p r =
      let (a, m, ch, s) = attempted-IsFailed t j d h in
      (a, s ∙ ap (λ x. if leb j.max_attempts (j.attempts + 1) then dead else x) p)
  all_failed t (u ∷ ts) j d h p r =
      let (a, m, ch, s) = attempted-IsFailed t j d h in
      let k =
        all_failed u ts (attempted c ss w t j) d (ap (has_sender ss) ch ∙ h) (ground arith)
          (ground arith) in
      (ground arith, k.1 ∙ rw (m, a) (ground arith))

  alone_picked :
      (t limit : ℕ) (j : Job) (n : ℕ)
      → is_due t j ≡ true
      → 1 ≤ limit
      → has_id j.id (picked t limit (record { jobs = j ∷ []; next_id = n })) ≡ true
  unfolding picked sort_by_time insert_by_time has_id
  alone_picked t zero j n d b = absurd (omega arith)
  alone_picked t (suc limit) j n d b = rw d (ground (arith, nat_eqb_iff j.id j.id))

  alone_due :
      (t : ℕ) (j : Job) (n : ℕ)
      → w.claims ≡ true
      → is_due t j ≡ true
      → 1 ≤ c.batch
      → (process_batch c ss w t (record { jobs = j ∷ []; next_id = n })).0
        ≡ record { jobs = attempted c ss w t j ∷ []; next_id = n }
  alone_due t j n up d b =
      process_batch_rows c ss w t (record { jobs = j ∷ []; next_id = n })
        (unfold has_id in refl, tt) up
      ∙ rw (alone_picked t c.batch j n d b)

  alone_all :
      (ts : List ℕ) (j : Job) (n : ℕ)
      → w.claims ≡ true
      → IsRipe ts j
      → 1 ≤ c.batch
      → run_batches c ss w ts (record { jobs = j ∷ []; next_id = n })
        ≡ record { jobs = attempted_all ts j ∷ []; next_id = n }
  alone_all [] j n up r b = refl
  alone_all (t ∷ ts) j n up r b =
      ap (run_batches c ss w ts) (alone_due t j n up r.0 b)
      ∙ alone_all ts (attempted c ss w t j) n up r.1 b

  -- A freshly enqueued row that is alone in the table, whose channel is registered and whose sends
  -- all fail while the claims and the writes succeed, is still pending after fewer batches than `max_attempts`
  -- that find it due, and is dead after `max_attempts` of them; each of them counts one attempt.
  pub run_batches_failing :
      (t : ℕ) (ts : List ℕ) (j : Job) (n : ℕ)
      → 1 ≤ c.batch
      → DoesFail
      → has_sender ss j.channel ≡ true
      → j.status ≡ pending
      → j.attempts ≡ 0
      → length ts < j.max_attempts
      → IsRipe (t ∷ ts) j
      → (k : Job) × (run_batches c ss w (t ∷ ts) (record { jobs = j ∷ []; next_id = n })
          ≡ record { jobs = k ∷ []; next_id = n })
        × (k.attempts ≡ length (t ∷ ts))
        × (k.status ≡ (if length (t ∷ ts) == j.max_attempts then dead else pending))
  run_batches_failing t ts j n b d h p z r ripe =
      let k = all_failed t ts j d h p (ground arith) in
      (
        attempted_all (t ∷ ts) j,
        alone_all (t ∷ ts) j n d.0 ripe b,
        ground (arith, k.0),
        k.1 ∙ ground arith,
      )
