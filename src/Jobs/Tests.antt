-- ===== src/Jobs/Tests.antt =====
-- The theorems on jobs, applied: a job of two attempts, with no processor.
use paywall.Prelude.{
  ◌+◌, ◌*◌, ◌<◌, ◌≡◌, refl, true, none, some, [], ◌∷◌, arith, find_first, update_all, state_of,
}
use paywall.Dates.{Date}
use paywall.Dates.Calendar.{ms_per_day}
use paywall.Jobs.{JobStatus, pending, cancelled, dead_letter, Job, JobDb, cancel_job, is_job}
use paywall.Jobs.Recurrence.{
  monthly, weekly, weekday, compute_next_run, seek_weekday, compute_next_run_later,
  compute_next_run_weekly, seek_weekday_never,
}
use paywall.Jobs.Worker.{Registry, no_processor, attempt}
use paywall.Jobs.Attempts.{attempts, attempt-cancel_job, attempts_exhaust}

abbrev job : JobStatus → Job
job status = record {
  id = 1;
  type = 7;
  payload = 0;
  priority = 2;
  status = status;
  queue_name = 0;
  run_at = none;
  cron = none;
  attempt_count = 0;
  max_attempts = 2;
  next_attempt_at = none;
  error = none;
  correlation_id = none;
  source_event_id = none;
  completed_at = none;
  cancelled_at = none;
}

abbrev db : JobStatus → JobDb
db status = record {
  jobs = job status ∷ record (job status) { id = 2; priority = 3 } ∷ [];
  history = [];
  controls = record { queue_name = 4; paused = true; paused_at = none; paused_by_id = none } ∷ [];
  source_events = [];
  job_audit = [];
  next_id = 100;
}

abbrev empty_registry : Registry
empty_registry type = none

abbrev stopped : JobDb
unfolding cancel_job find_first update_all
stopped = state_of (cancel_job 5 1 9 (db pending))

attempt-cancel_job_example :
    (cancelled ≡ cancelled) × (attempt empty_registry 6 1 stopped ≡ stopped)
unfolding cancel_job find_first update_all
attempt-cancel_job_example =
    attempt-cancel_job empty_registry 5 6 1 9 (db pending)
      (record (job pending) { status = cancelled; cancelled_at = some 5 }) stopped refl

attempts_exhaust_example :
    (j : Job) × (find_first
        (is_job 1)
        (attempts empty_registry (5 ∷ 600000 ∷ []) 1 (db pending)).jobs
      ≡ some j)
    × (j.attempt_count ≡ 2)
    × (j.status ≡ dead_letter)
unfolding find_first
attempts_exhaust_example =
    attempts_exhaust empty_registry 5 (600000 ∷ []) 1 (db pending) (job pending) refl refl
      (λ j e. (no_processor, refl))

compute_next_run_later_example :
    (t : Date) × (compute_next_run (monthly 28 9 30) 2613600000 ≡ some t) × (2613600000 < t)
compute_next_run_later_example = compute_next_run_later (monthly 28 9 30) 2613600000 (omega arith)

compute_next_run_weekly_example :
    (t : Date) × (compute_next_run (weekly 0 9 30) 2613600000 ≡ some t)
    × (weekday t ≡ 0)
    × (2613600000 < t)
    × (t < 2613600000 + 8 * ms_per_day)
compute_next_run_weekly_example =
    compute_next_run_weekly 0 9 30 2613600000 (omega arith) (omega arith) (omega arith)

seek_weekday_never_example : seek_weekday 1000 7 0 ≡ none
seek_weekday_never_example = seek_weekday_never 1000 7 0 (omega arith)
