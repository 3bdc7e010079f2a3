-- ===== src/Delivery/Tests.antt =====
-- Runs of the outbox on concrete rows.
use aleart_hub.Base.{
  Bool, length, ◌≤◌, ◌*◌, ◌≡◌, refl, true, false, List, [], ◌∷◌, map, arith, some, if◌then◌else◌,
  nat_eq, All, text, text_eq,
}
use aleart_hub.Alert.Tests.{fire}
use aleart_hub.Delivery.{
  Job, Outbox, pending, dead, has_id, picked, Config, with_defaults, backoff, Sender,
  webhook_sender, World, outcome, enqueue, enqueue_all, routed, enqueue_delivery, same_key, job_for,
  backoff_from, process_batch, claim_due_deliveries, has_sender, is_due, second, as_rescheduled,
  leased, sort_by_time, insert_by_time,
}
use aleart_hub.Delivery.Enqueue.{enqueue_again}
use aleart_hub.Delivery.Claim.{IsKeyed, Claim, run_claims, claim_exclusive}
use aleart_hub.Delivery.Batch.{after_attempt, process_batch_lem}
use aleart_hub.Delivery.Life.{IsRipe, run_batches, run_batches_failing}

abbrev pub usual : Config
usual = record {
  max_attempts = 2;
  base_backoff = 2 * second;
  max_backoff = 300 * second;
  lease = 60 * second;
  batch = 50;
}

usual_is_default : with_defaults (record usual { base_backoff = 0; lease = 0; batch = 0 }) ≡ usual
unfolding with_defaults
usual_is_default = refl

abbrev pub hooks : List Sender
hooks = webhook_sender (text "http://a" ∷ text "http://b" ∷ []) ∷ []

abbrev pub empty : Outbox
empty = record { jobs = []; next_id = 1 }

abbrev pub every : Job → Bool
every j = true

abbrev queued : Outbox
queued = enqueue usual hooks every fire 0 (text "{}") 100 empty

abbrev down : World
down = record { send = λ j. some (text "refused"); written = λ j. true; claims = true }

-- The row of the first hook.
abbrev row : Job
row = record {
  id = 1;
  org_id = 0;
  alert_id = text "a1";
  channel = text "webhook";
  target = text "http://a";
  payload = text "{}";
  severity = fire.severity;
  status = pending;
  attempts = 0;
  max_attempts = 2;
  next_attempt_at = 100;
  last_error = [];
  updated_at = 100;
}

abbrev other_row : Job
other_row = record row { id = 2; target = text "http://b" }

abbrev two : Outbox
two = record { jobs = row ∷ other_row ∷ []; next_id = 3 }

queued-two : queued ≡ two
unfolding enqueue enqueue_all routed webhook_sender enqueue_delivery same_key job_for
queued-two = refl

two-IsKeyed : IsKeyed two.jobs
two-IsKeyed = unfold has_id in (refl, (refl, tt))

abbrev eager : Config
eager = record usual { max_backoff = second }

enqueue_again_example :
    enqueue usual hooks every (record fire { ttl = 600 }) 3 (text "[]") 200 queued ≡ queued
unfolding webhook_sender
enqueue_again_example =
    enqueue_again usual hooks every every fire (record fire { ttl = 600 }) 0 3 (text "{}")
      (text "[]") 100 200 empty (λ j. refl) refl (refl, tt)

abbrev two_claims : List Claim
two_claims =
    record { at = 130; lease = 60; limit = 5 } ∷ record { at = 159; lease = 1; limit = 50 } ∷ []

first_claim : has_id 1 (claim_due_deliveries 100 60 1 two).1 ≡ true
unfolding claim_due_deliveries has_id picked is_due leased sort_by_time insert_by_time
first_claim = refl

claim_exclusive_example :
    All
      (λ jobs. has_id 1 jobs ≡ false)
      (run_claims two_claims (claim_due_deliveries 100 60 1 two).0)
claim_exclusive_example =
    claim_exclusive 100 60 1 1 two_claims two (omega arith, (omega arith, tt)) first_claim

process_batch_lem_example :
    ((process_batch usual hooks down 100 two).0.jobs
      ≡ map
          (λ j. if has_id j.id (picked 100 50 two) then after_attempt usual hooks down 100 j else j)
          two.jobs)
    × All
        (λ j.
          has_id j.id (picked 100 50 two) ≡ true → (j.status ≡ pending) × (j.next_attempt_at ≤ 100))
        two.jobs
    × (length (picked 100 50 two) ≡ 2)
process_batch_lem_example = process_batch_lem usual hooks down 100 two two-IsKeyed

alone-IsRipe : IsRipe usual hooks down (100 ∷ 102 ∷ []) row
unfolding is_due outcome leased as_rescheduled has_sender backoff backoff_from webhook_sender
alone-IsRipe = (refl, (refl, tt))

run_batches_failing_example :
    (k : Job) × (run_batches usual hooks down
        (100 ∷ 102 ∷ [])
        (record { jobs = row ∷ []; next_id = 2 })
      ≡ record { jobs = k ∷ []; next_id = 2 })
    × (k.attempts ≡ 2)
    × (k.status ≡ dead)
unfolding webhook_sender
run_batches_failing_example =
    run_batches_failing usual hooks down 100 (102 ∷ []) row 2 (omega arith)
      (refl, λ k. (refl, text "refused", refl)) (unfold has_sender in refl) refl refl (omega arith)
      alone-IsRipe
