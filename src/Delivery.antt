-- ===== src/Delivery.antt =====
-- server/internal/delivery and store/delivery.go: the durable outbox. The table is the list of its
-- rows; what a channel answers and whether a write succeeds are arguments. Times are in seconds,
-- durations in nanoseconds and below 2^62, so that doubling one does not wrap.
pub mod Backoff
pub mod Enqueue
pub mod Claim
pub mod Batch
pub mod Life
pub mod Tests
use aleart_hub.Base.{
  ℕ, zero, suc, ◌+◌, ◌-◌, ◌*◌, ◌/◌, Bool, true, false, not, ◌&&◌, ◌||◌, Option, none, some, List,
  [], ◌∷◌, ◌++◌, if◌then◌else◌, ◌==◌, nat_eq, text_eq, ltb, leb, Text, text, length, take, select,
  any, map,
}
use aleart_hub.Alert.{Alert, critical, emergency}

pub data Status : Type 0 where
  pending sent dead : Status

-- A row of `delivery_jobs`.
pub record Job : Type 0 where
  pub id : ℕ
  pub org_id : ℕ
  pub alert_id : Text
  pub channel : Text
  pub target : Text
  pub payload : Text
  pub severity : Text
  pub status : Status
  pub attempts : ℕ
  pub max_attempts : ℕ
  pub next_attempt_at : ℕ
  pub last_error : Text
  pub updated_at : ℕ

pub record Outbox : Type 0 where
  pub jobs : List Job
  pub next_id : ℕ

-- The unique key of the table.
unfoldable pub same_key : Job → Job → Bool
same_key j k = j.alert_id == k.alert_id && (j.channel == k.channel && j.target == k.target)

-- EnqueueDelivery: `ON CONFLICT … DO NOTHING`; the flag tells whether a row was inserted.
unfoldable pub enqueue_delivery : Job → ℕ → Outbox → Outbox × Bool
enqueue_delivery j now o = if any (same_key j) o.jobs then (o, false) else (
  record {
    jobs =
        o.jobs
        ++ record j {
          id = o.next_id;
          status = pending;
          attempts = 0;
          next_attempt_at = now;
          last_error = [];
          updated_at = now;
        }
          ∷ [];
    next_id = o.next_id + 1;
  },
  true,
)

abbrev pub is_pending : Status → Bool
is_pending pending = true
is_pending _ = false

-- `WHERE status='pending' AND next_attempt_at <= now`
unfoldable pub is_due : ℕ → Job → Bool
is_due now j = is_pending j.status && leb j.next_attempt_at now

-- `ORDER BY next_attempt_at`; rows with one time keep the order of the table.
unfoldable pub insert_by_time : Job → List Job → List Job
insert_by_time j [] = j ∷ []
insert_by_time j (k ∷ ks) =
    let rest = insert_by_time j ks in
    if leb j.next_attempt_at k.next_attempt_at then j ∷ k ∷ ks else k ∷ rest

unfoldable pub sort_by_time : List Job → List Job
sort_by_time [] = []
sort_by_time (j ∷ js) = insert_by_time j (sort_by_time js)

-- `WHERE id IN (…)`
unfoldable pub has_id : ℕ → List Job → Bool
has_id i js = any (λ j. j.id == i) js

-- The rows that the inner SELECT of ClaimDueDeliveries picks.
unfoldable pub picked : ℕ → ℕ → Outbox → List Job
picked now limit o = take limit (sort_by_time (select (is_due now) o.jobs))

unfoldable pub leased : ℕ → ℕ → Job → Job
leased now lease j = record j {
  attempts = j.attempts + 1;
  next_attempt_at = now + lease;
  updated_at = now;
}

-- ClaimDueDeliveries: the table after the UPDATE, and the rows that it returns.
unfoldable pub claim_due_deliveries : ℕ → ℕ → ℕ → Outbox → Outbox × List Job
claim_due_deliveries now lease limit o =
    let chosen = picked now limit o in
    (
      record o { jobs = map (λ j. if has_id j.id chosen then leased now lease j else j) o.jobs },
      map (leased now lease) (select (λ j. has_id j.id chosen) o.jobs),
    )

-- `UPDATE … WHERE id=?`
unfoldable pub update_row : ℕ → (Job → Job) → Outbox → Outbox
update_row i f o = record o { jobs = map (λ j. if j.id == i then f j else j) o.jobs }

unfoldable pub as_sent : ℕ → Job → Job
as_sent now j = record j { status = sent; last_error = []; updated_at = now }

unfoldable pub as_rescheduled : ℕ → Text → ℕ → Job → Job
as_rescheduled next_at last_err now j = record j {
  next_attempt_at = next_at;
  last_error = last_err;
  updated_at = now;
}

unfoldable pub as_dead : Text → ℕ → Job → Job
as_dead last_err now j = record j { status = dead; last_error = last_err; updated_at = now }

unfoldable pub mark_delivery_sent : ℕ → ℕ → Outbox → Outbox
mark_delivery_sent i now o = update_row i (as_sent now) o

unfoldable pub reschedule_delivery : ℕ → ℕ → Text → ℕ → Outbox → Outbox
reschedule_delivery i next_at last_err now o = update_row i (as_rescheduled next_at last_err now) o

unfoldable pub mark_delivery_dead : ℕ → Text → ℕ → Outbox → Outbox
mark_delivery_dead i last_err now o = update_row i (as_dead last_err now) o

-- Config, its durations in nanoseconds.
pub record Config : Type 0 where
  pub max_attempts : ℕ
  pub base_backoff : ℕ
  pub max_backoff : ℕ
  pub lease : ℕ
  pub batch : ℕ

abbrev pub second : ℕ
second = 1_000_000_000

abbrev or_default : ℕ → ℕ → ℕ
or_default n d = if n == 0 then d else n

-- The values that are not positive get their defaults.
unfoldable pub with_defaults : Config → Config
with_defaults c = record {
  max_attempts = or_default c.max_attempts 6;
  base_backoff = or_default c.base_backoff (2 * second);
  max_backoff = or_default c.max_backoff (300 * second);
  lease = or_default c.lease (60 * second);
  batch = or_default c.batch 50;
}

-- The loop of `backoff`, with the rounds left: `attempts - 1` at first.
unfoldable pub backoff_from : ℕ → ℕ → ℕ → ℕ
backoff_from zero d limit = d
backoff_from (suc n) d limit =
    let rest = backoff_from n (d * 2) limit in if leb limit (d * 2) then limit else rest

unfoldable pub backoff : Config → ℕ → ℕ
backoff c attempts = backoff_from (attempts - 1) c.base_backoff c.max_backoff

pub record Sender : Type 0 where
  pub channel : Text
  pub targets : Alert → List Text

unfoldable pub webhook_sender : List Text → Sender
webhook_sender urls = record { channel = text "webhook"; targets = λ a. urls }

unfoldable pub email_targets : Text → List Text → Alert → List Text
email_targets host [] a = []
email_targets host (t ∷ ts) a =
    if host == []
    then []
    else if not (a.severity == critical) && not (a.severity == emergency)
    then []
    else t ∷ ts

unfoldable pub email_sender : Text → List Text → Sender
email_sender host to = record { channel = text "email"; targets = email_targets host to }

unfoldable pub job_for : Config → Alert → ℕ → Text → Text → Text → Job
job_for c a org_id payload channel target = record {
  id = 0;
  org_id = org_id;
  alert_id = a.id;
  channel = channel;
  target = target;
  payload = payload;
  severity = a.severity;
  status = pending;
  attempts = 0;
  max_attempts = c.max_attempts;
  next_attempt_at = 0;
  last_error = [];
  updated_at = 0;
}

-- The jobs that an alert routes to, in the order of the loops of Manager.Enqueue.
unfoldable pub routed : Config → List Sender → Alert → ℕ → Text → List Job
routed c [] a org_id payload = []
routed c (s ∷ ss) a org_id payload =
    map (job_for c a org_id payload s.channel) (s.targets a) ++ routed c ss a org_id payload

-- The loops, by which rows the database takes; an INSERT that fails is only logged.
unfoldable pub enqueue_all : (Job → Bool) → List Job → ℕ → Outbox → Outbox
enqueue_all takes [] now o = o
enqueue_all takes (j ∷ js) now o =
    enqueue_all takes js now (if takes j then (enqueue_delivery j now o).0 else o)

-- Manager.Enqueue
unfoldable pub enqueue :
    Config → List Sender → (Job → Bool) → Alert → ℕ → Text → ℕ → Outbox → Outbox
enqueue c senders takes a org_id payload now o =
    enqueue_all takes (routed c senders a org_id payload) now o

unfoldable pub has_sender : List Sender → Text → Bool
has_sender senders channel = any (λ s. s.channel == channel) senders

-- What the outside does with a job: `none` is a delivery, `some` the channel's error; and whether
-- the write that follows succeeds; and whether the statement of the claim does.
pub record World : Type 0 where
  pub send : Job → Option Text
  pub written : Job → Bool
  pub claims : Bool

-- What `deliver` writes to the row of a claimed job.
unfoldable pub outcome : Config → List Sender → World → ℕ → Job → Job → Job
outcome c senders w now j =
    if has_sender senders j.channel
    then elim (w.send j) [
      | none ↦ as_sent now
      | some e ↦
          if leb j.max_attempts j.attempts
          then as_dead e now
          else as_rescheduled (now + backoff c j.attempts / second) e now
    ]
    else as_dead (text "no sender for channel " ++ j.channel) now

-- deliver, by the claimed copy `j` of a row; a write that fails leaves the row to its lease.
unfoldable pub deliver : Config → List Sender → World → ℕ → Job → Outbox → Outbox
deliver c senders w now j o =
    if w.written j then update_row j.id (outcome c senders w now j) o else o

unfoldable pub deliver_all : Config → List Sender → World → ℕ → List Job → Outbox → Outbox
deliver_all c senders w now [] o = o
deliver_all c senders w now (j ∷ js) o =
    deliver_all c senders w now js (deliver c senders w now j o)

-- processBatch: the table, and how many jobs were claimed; a claim that fails is only logged.
unfoldable pub process_batch : Config → List Sender → World → ℕ → Outbox → Outbox × ℕ
process_batch c senders w now o =
    let (o', jobs) = claim_due_deliveries now (c.lease / second) c.batch o in
    if w.claims then (deliver_all c senders w now jobs o', length jobs) else (o, 0)
