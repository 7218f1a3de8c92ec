-- ===== src/Jobs.antt =====
-- The background jobs: apps/api/src/background-jobs/background-jobs.service.ts (the queue) and
-- job-worker.service.ts (the worker). `registry` stands for the registered processors, which are
-- not part of the queue: whether a job of that type and payload succeeds in its attempt.
pub mod Recurrence
pub mod Worker
pub mod Attempts
pub mod Sweeps
mod Tests
use paywall.Prelude.{
  ℕ, suc, ◌+◌, ◌*◌, ◌^◌, Bool, true, false, not, ◌&&◌, ◌||◌, Option, none, some, List, [], ◌∷◌,
  ◌++◌, ◌==◌, leb, ltb, get_or, is_some, if◌then◌else◌, min, Request, ◌>>=◌, ◌>>◌, return, guard,
  or_throw, read, write, not_found, bad_request, find_first, update_all,
}
use paywall.Dates.{Date}
use paywall.Jobs.Recurrence.{Schedule}

pub data JobStatus : Type 0 where
  pending scheduled processing success retrying failed dead_letter cancelled : JobStatus

-- JobPriority, by its position in the enum: LOW 0, NORMAL 1, HIGH 2, CRITICAL 3.
pub record Job : Type 0 where
  pub id : ℕ
  pub type : ℕ
  pub payload : ℕ
  pub priority : ℕ
  pub status : JobStatus
  pub queue_name : ℕ
  pub run_at : Option Date
  pub cron : Option Schedule
  pub attempt_count : ℕ
  pub max_attempts : ℕ
  pub next_attempt_at : Option Date
  pub error : Option ℕ
  pub correlation_id : Option ℕ
  pub source_event_id : Option ℕ
  pub completed_at : Option Date
  pub cancelled_at : Option Date

pub record JobHistoryEntry : Type 0 where
  pub job_id : ℕ
  pub attempt_number : ℕ
  pub status : JobStatus
  pub error : Option ℕ

-- QueueControl
pub record QueueControl : Type 0 where
  pub queue_name : ℕ
  pub paused : Bool
  pub paused_at : Option Date
  pub paused_by_id : Option ℕ

pub data JobAction : Type 0 where
  job_cancelled job_retried queue_paused queue_resumed : ℕ → JobAction

pub data EventStatus : Type 0 where
  published dispatched event_failed : EventStatus

-- A platform event, with the column that the worker writes.
pub record SourceEvent : Type 0 where
  pub id : ℕ
  pub status : EventStatus

pub record JobDb : Type 0 where
  pub jobs : List Job
  pub history : List JobHistoryEntry
  pub controls : List QueueControl
  pub source_events : List SourceEvent
  pub job_audit : List (JobAction × ℕ)
  pub next_id : ℕ

-- EnqueueOptions; `defaults` of the columns are those of the schema.
pub record EnqueueOptions : Type 0 where
  pub priority : Option ℕ
  pub queue_name : Option ℕ
  pub run_at : Option Date
  pub cron : Option Schedule
  pub max_attempts : Option ℕ
  pub correlation_id : Option ℕ
  pub source_event_id : Option ℕ

abbrev pub is_job : ℕ → Job → Bool
is_job key j = j.id == key

-- `CANCELLABLE_STATUSES.includes(job.status)`, also the statuses that a sweep picks up.
abbrev pub is_cancellable : JobStatus → Bool
is_cancellable pending = true
is_cancellable scheduled = true
is_cancellable retrying = true
is_cancellable _ = false

-- `RETRYABLE_STATUSES.includes(job.status)`
abbrev pub is_retryable : JobStatus → Bool
is_retryable failed = true
is_retryable dead_letter = true
is_retryable _ = false

abbrev pub is_cancelled : JobStatus → Bool
is_cancelled cancelled = true
is_cancelled _ = false

-- `options.runAt && options.runAt.getTime() > Date.now()`
abbrev pub is_later : Option Date → Date → Bool
is_later none now = false
is_later (some t) now = ltb now t

-- The default queue, "default", is queue 0.
abbrev pub new_job : Date → ℕ → ℕ → ℕ → EnqueueOptions → Job
new_job now id type payload options = record {
  id = id;
  type = type;
  payload = payload;
  priority = get_or options.priority 1;
  status = if is_later options.run_at now then scheduled else pending;
  queue_name = get_or options.queue_name 0;
  run_at = options.run_at;
  cron = options.cron;
  attempt_count = 0;
  max_attempts = get_or options.max_attempts 5;
  next_attempt_at = none;
  error = none;
  correlation_id = options.correlation_id;
  source_event_id = options.source_event_id;
  completed_at = none;
  cancelled_at = none;
}

abbrev pub add_job : (ℕ → Job) → JobDb → JobDb
add_job job_of db = record db { jobs = db.jobs ++ job_of db.next_id ∷ []; next_id = suc db.next_id }

unfoldable pub enqueue : Date → ℕ → ℕ → EnqueueOptions → Request JobDb ℕ
enqueue now type payload options = do
  id ← read (λ db. db.next_id)
  write (add_job (λ key. new_job now key type payload options))
  return id

unfoldable pub get_job : ℕ → Request JobDb Job
get_job key db = or_throw (find_first (is_job key) db.jobs) not_found db

unfoldable pub update_job : ℕ → (Job → Job) → JobDb → JobDb
update_job key f db = record db { jobs = update_all (is_job key) f db.jobs }

abbrev pub audit_job : JobAction → ℕ → JobDb → JobDb
audit_job action user_id db = record db { job_audit = db.job_audit ++ (action, user_id) ∷ [] }

unfoldable pub cancel_job : Date → ℕ → ℕ → Request JobDb Job
unfolding get_job update_job
cancel_job now key user_id = do
  job ← get_job key
  guard (is_cancellable job.status) bad_request
  write (update_job key (λ j. record j { status = cancelled; cancelled_at = some now }))
  write (audit_job (job_cancelled key) user_id)
  return (record job { status = cancelled; cancelled_at = some now })

unfoldable pub retry_job : Date → ℕ → ℕ → Request JobDb Job
unfolding get_job update_job
retry_job now key user_id = do
  job ← get_job key
  guard (is_retryable job.status) bad_request
  write (
      update_job key (λ j. record j { status = pending; next_attempt_at = some now; error = none }))
  write (audit_job (job_retried key) user_id)
  return (record job { status = pending; next_attempt_at = some now; error = none })

abbrev pub is_queue : ℕ → QueueControl → Bool
is_queue name c = c.queue_name == name

-- `queueControl.upsert`
abbrev pub upsert_control : QueueControl → JobDb → JobDb
upsert_control c db =
    if is_some (find_first (is_queue c.queue_name) db.controls)
    then record db { controls = update_all (is_queue c.queue_name) (λ old. c) db.controls }
    else record db { controls = db.controls ++ c ∷ [] }

unfoldable pub pause_queue : Date → ℕ → ℕ → Request JobDb QueueControl
pause_queue now name user_id = do
  let control : QueueControl = record {
    queue_name = name;
    paused = true;
    paused_at = some now;
    paused_by_id = some user_id;
  }
  write (upsert_control control)
  write (audit_job (queue_paused name) user_id)
  return control

unfoldable pub resume_queue : ℕ → ℕ → Request JobDb QueueControl
resume_queue name user_id = do
  let control : QueueControl = record {
    queue_name = name;
    paused = false;
    paused_at = none;
    paused_by_id = none;
  }
  write (upsert_control control)
  write (audit_job (queue_resumed name) user_id)
  return control
