-- ===== src/Jobs/Worker.antt =====
-- The worker: attempt, computeBackoff and processDue of
-- apps/api/src/background-jobs/job-worker.service.ts.
use paywall.Prelude.{
  ℕ, zero, suc, ◌+◌, ◌*◌, ◌^◌, Bool, true, false, not, ◌&&◌, ◌||◌, Option, none, some, List, [],
  ◌∷◌, ◌++◌, ◌==◌, leb, if◌then◌else◌, min, find_first, update_all,
}
use paywall.Dates.{Date}
use paywall.Jobs.Recurrence.{Schedule, compute_next_run}
use paywall.Jobs.{
  JobStatus, scheduled, processing, success, retrying, dead_letter, Job, EventStatus, dispatched,
  event_failed, QueueControl, JobDb, is_job, is_cancelled, is_cancellable, update_job, add_job,
}

-- A processor runs a job: `none` if it returns, or the message of what it throws.
abbrev pub Processor : Type 0
Processor = Job → Option ℕ

-- The registry's `resolve`, by the job's type.
abbrev pub Registry : Type 0
Registry = ℕ → Option Processor

-- The messages `No job processor registered …` and `Unrecognized recurring schedule …`.
abbrev pub no_processor : ℕ
no_processor = 1

abbrev pub bad_schedule : ℕ
bad_schedule = 2

-- `new Date(Date.now() + backoffMinutes * 60_000)`
unfoldable pub compute_backoff : Date → ℕ → Date
compute_backoff now attempt_number = now + min (2 ^ attempt_number) 60 * 60000

abbrev pub log_attempt : ℕ → ℕ → JobStatus → Option ℕ → JobDb → JobDb
log_attempt key n status error db = record db {
  history =
      db.history
      ++ record { job_id = key; attempt_number = n; status = status; error = error } ∷ [];
}

-- The update of the source event, whose failure is ignored.
abbrev pub mark_event : Option ℕ → EventStatus → JobDb → JobDb
mark_event none status db = db
mark_event (some key) status db = record db {
  source_events =
      update_all (λ e. e.id == key) (λ e. record e { status = status }) db.source_events;
}

abbrev pub succeeded : Date → Job → Job → Job
succeeded now job j = record j {
  status = success;
  attempt_count = suc job.attempt_count;
  completed_at = some now;
}

abbrev pub is_exhausted : Job → Bool
is_exhausted job = leb job.max_attempts (suc job.attempt_count)

abbrev pub failure_status : Job → JobStatus
failure_status job = if is_exhausted job then dead_letter else retrying

abbrev pub failed_with : Date → Job → ℕ → Job → Job
failed_with now job message j = record j {
  status = failure_status job;
  attempt_count = suc job.attempt_count;
  next_attempt_at =
      if is_exhausted job then none else some (compute_backoff now (suc job.attempt_count));
  error = some message;
}

-- The `catch` branch.
unfoldable pub fail_attempt : Date → Job → ℕ → JobDb → JobDb
unfolding update_job compute_backoff
fail_attempt now job message db =
    let written =
      log_attempt job.id (suc job.attempt_count) (failure_status job) (some message)
        (update_job job.id (failed_with now job message) db) in
    if is_exhausted job then mark_event job.source_event_id event_failed written else written

-- The next occurrence of a recurring job.
abbrev pub next_occurrence : Job → Date → ℕ → Job
next_occurrence job next_run_at id = record {
  id = id;
  type = job.type;
  payload = job.payload;
  priority = job.priority;
  status = scheduled;
  queue_name = job.queue_name;
  run_at = some next_run_at;
  cron = job.cron;
  attempt_count = 0;
  max_attempts = job.max_attempts;
  next_attempt_at = none;
  error = none;
  correlation_id = job.correlation_id;
  source_event_id = none;
  completed_at = none;
  cancelled_at = none;
}

-- A schedule that cannot be computed throws inside the `try`: the success is written by then.
abbrev pub schedule_next : Date → Job → Option Date → JobDb → JobDb
schedule_next now job none db = fail_attempt now job bad_schedule db
schedule_next now job (some next_run_at) db = add_job (next_occurrence job next_run_at) db

abbrev pub reschedule : Date → Job → Option Schedule → JobDb → JobDb
reschedule now job none db = db
reschedule now job (some cron) db = schedule_next now job (compute_next_run cron now) db

unfoldable pub complete_attempt : Date → Job → JobDb → JobDb
unfolding update_job fail_attempt compute_next_run
complete_attempt now job db = reschedule now job job.cron (
    mark_event job.source_event_id dispatched (
      log_attempt job.id (suc job.attempt_count) success none
        (update_job job.id (succeeded now job) db)))

abbrev pub run_processor : Option Processor → Job → Option ℕ
run_processor none job = some no_processor
run_processor (some processor) job = processor job

abbrev pub finish_attempt : Date → Job → Option ℕ → JobDb → JobDb
finish_attempt now job none db = complete_attempt now job db
finish_attempt now job (some message) db = fail_attempt now job message db

abbrev pub attempt_job : Registry → Date → Option Job → JobDb → JobDb
attempt_job registry now none db = db
attempt_job registry now (some job) db =
    if is_cancelled job.status
    then db
    else finish_attempt now job (run_processor (registry job.type) job)
        (update_job job.id (λ j. record j { status = processing }) db)

unfoldable pub attempt : Registry → Date → ℕ → JobDb → JobDb
unfolding update_job complete_attempt fail_attempt
attempt registry now key db = attempt_job registry now (find_first (is_job key) db.jobs) db

-- `{ OR: [{ column: null }, { column: { lte: now } }] }`
abbrev pub has_come : Option Date → Date → Bool
has_come none now = true
has_come (some t) now = leb t now

unfoldable pub is_paused : ℕ → List QueueControl → Bool
is_paused name [] = false
is_paused name (c ∷ cs) = (c.paused && c.queue_name == name) || is_paused name cs

unfoldable pub is_due_job : Date → List QueueControl → Job → Bool
unfolding is_paused
is_due_job now controls j =
    is_cancellable j.status
    && not (is_paused j.queue_name controls)
    && has_come j.run_at now
    && has_come j.next_attempt_at now

-- `orderBy: [{ priority: "desc" }, { createdAt: "asc" }]`, of a list in order of creation.
unfoldable pub insert_job : Job → List Job → List Job
insert_job j [] = j ∷ []
insert_job j (k ∷ ks) = if leb k.priority j.priority then j ∷ k ∷ ks else k ∷ insert_job j ks

unfoldable pub due_jobs : Date → List QueueControl → List Job → List Job
unfolding is_due_job insert_job
due_jobs now controls [] = []
due_jobs now controls (j ∷ js) =
    let rest = due_jobs now controls js in
    if is_due_job now controls j then insert_job j rest else rest

unfoldable pub take {ℓ} : {A : Type ℓ} → ℕ → List A → List A
take n [] = []
take zero (x ∷ xs) = []
take (suc n) (x ∷ xs) = x ∷ take n xs

unfoldable pub attempt_all : Registry → Date → List Job → JobDb → JobDb
unfolding attempt
attempt_all registry now [] db = db
attempt_all registry now (j ∷ js) db = attempt_all registry now js (attempt registry now j.id db)

-- A sweep, of at most SWEEP_BATCH_SIZE jobs.
unfoldable pub process_due : Registry → Date → JobDb → JobDb
unfolding due_jobs take attempt_all
process_due registry now db =
    attempt_all registry now (take 20 (due_jobs now db.controls db.jobs)) db
