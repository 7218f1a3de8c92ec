-- ===== src/Jobs/Attempts.antt =====
-- What an attempt comes to, and how many there are.
use mathlib.Core.Option
use paywall.Prelude.{
  ok, length, ℕ, suc, ◌+◌, ◌≡◌, refl, ap, ◌∙◌, inl, inr, false, Option, none, some, List, [], ◌∷◌,
  ◌++◌, leb, if◌then◌else◌, arith, ==_iff, Bool-cases, find_first, find_first-true, update_all,
  find_first-update_self,
}
use paywall.Dates.{Date}
use paywall.Jobs.{
  processing, retrying, dead_letter, cancelled, Job, EventStatus, event_failed, JobDb, get_job,
  cancel_job, is_job, is_cancelled, update_job,
}
use paywall.Jobs.Worker.{
  Registry, run_processor, is_exhausted, failure_status, failed_with, fail_attempt, mark_event,
  attempt_job, finish_attempt, attempt,
}

-- The attempt of a cancelled job changes nothing.
attempt_cancelled :
    (registry : Registry) (now : Date) (key : ℕ) (db : JobDb) (job : Job)
    → find_first (is_job key) db.jobs ≡ some job
    → job.status ≡ cancelled
    → attempt registry now key db ≡ db
unfolding attempt
attempt_cancelled registry now key db job found status = rw (found, attempt, attempt_job, status)

mark_event-jobs :
    (key : Option ℕ) (status : EventStatus) (db : JobDb)
    → ((mark_event key status db).jobs ≡ db.jobs)
      × ((mark_event key status db).history ≡ db.history)
mark_event-jobs none status db = (refl, refl)
mark_event-jobs (some k) status db = (refl, refl)

-- The row that a failed attempt leaves.
abbrev pub after_failure : Date → Job → ℕ → Job
after_failure now job message = failed_with now job message (record job { status = processing })

fail_attempt-jobs :
    (now : Date) (job : Job) (message : ℕ) (db : JobDb)
    → ((fail_attempt now job message db).jobs
        ≡ update_all (is_job job.id) (failed_with now job message) db.jobs)
      × ((fail_attempt now job message db).history
          ≡ db.history
            ++ record {
              job_id = job.id;
              attempt_number = suc job.attempt_count;
              status = failure_status job;
              error = some message;
            }
              ∷ [])
unfolding fail_attempt
fail_attempt-jobs now job message db = elim (Bool-cases (is_exhausted job)) [
  | inl e ↦ rw (e, fail_attempt) (mark_event-jobs job.source_event_id event_failed _)
  | inr e ↦ rw (e, fail_attempt) (refl, refl)
]

-- The attempt of a job whose processor throws, or that has none.
attempt_fails :
    (registry : Registry) (now : Date) (key : ℕ) (db : JobDb) (job : Job) (message : ℕ)
    → find_first (is_job key) db.jobs ≡ some job
    → is_cancelled job.status ≡ false
    → run_processor (registry job.type) job ≡ some message
    → find_first (is_job key) (attempt registry now key db).jobs
      ≡ some (after_failure now job message)
unfolding attempt update_job
attempt_fails registry now key db job message found live thrown =
    let mark : Job → Job = λ j. record j { status = processing } in
    let working = update_all (is_job key) mark db.jobs in
    let same : job.id ≡ key = (==_iff job.id key).0 (find_first-true (is_job key) db.jobs found) in
    let ran : attempt registry now key db
        ≡ fail_attempt now job message (update_job job.id mark db) =
      rw (found, attempt, attempt_job, live, if◌then◌else◌, thrown, finish_attempt) refl in
    ap (λ d. find_first (is_job key) d.jobs) ran
    ∙ ap (find_first (is_job key))
        ((fail_attempt-jobs now job message (update_job job.id mark db)).0)
    ∙ ap
        (λ k. find_first (is_job key) (
          update_all (is_job k) (failed_with now job message) (update_all (is_job k) mark db.jobs)))
        same
    ∙ find_first-update_self (is_job key) (failed_with now job message) working (λ j h. h)
    ∙ ap (Option.map (failed_with now job message))
        (find_first-update_self (is_job key) mark db.jobs (λ j h. h) ∙ ap (Option.map mark) found)

-- One attempt after another, at these times.
unfoldable pub attempts : Registry → List Date → ℕ → JobDb → JobDb
attempts registry [] key db = db
attempts registry (now ∷ ts) key db = attempts registry ts key (attempt registry now key db)

abbrev pub AlwaysThrows : Registry → ℕ → Type 0
AlwaysThrows registry type =
    (j : Job) → j.type ≡ type → (message : ℕ) × (run_processor (registry type) j ≡ some message)

status_live : (job : Job) → is_cancelled (failure_status job) ≡ false
status_live job = ground arith

-- A job that is not cancelled and whose processor always throws, attempted at any times one after
-- another, has counted these attempts, and is in DEAD_LETTER if they have reached maxAttempts, and
-- else in RETRYING.
pub attempts_exhaust :
    (registry : Registry) (now : Date) (ts : List Date) (key : ℕ) (db : JobDb) (job : Job)
    → find_first (is_job key) db.jobs ≡ some job
    → is_cancelled job.status ≡ false
    → AlwaysThrows registry job.type
    → let tried = job.attempt_count + length (now ∷ ts) in
      (j : Job) × (find_first (is_job key) (attempts registry (now ∷ ts) key db).jobs ≡ some j)
      × (j.attempt_count ≡ tried)
      × (j.status ≡ (if leb job.max_attempts tried then dead_letter else retrying))
unfolding attempts
attempts_exhaust registry now [] key db job found live throws =
    let (message, thrown) = throws job refl in
    (
      after_failure now job message,
      attempt_fails registry now key db job message found live thrown,
      omega arith,
      ap (λ n. if leb job.max_attempts n then dead_letter else retrying) (omega arith),
    )
attempts_exhaust registry now (t ∷ ts) key db job found live throws =
    let (message, thrown) = throws job refl in
    let next = after_failure now job message in
    let (j, found', tried, status) =
      attempts_exhaust registry t ts key (attempt registry now key db) next
        (attempt_fails registry now key db job message found live thrown) (status_live job)
        throws in
    (
      j,
      found',
      omega arith,
      status ∙ ap (λ n. if leb job.max_attempts n then dead_letter else retrying) (omega arith),
    )

cancel_job-found :
    (now : Date) (key user : ℕ) (db : JobDb) {row : Job} {db' : JobDb}
    → cancel_job now key user db ≡ ok row db'
    → (job : Job) × (find_first (is_job key) db.jobs ≡ some job)
unfolding cancel_job get_job
cancel_job-found now key user db {row} {db'} h = go (find_first (is_job key) db.jobs) refl
  where
    go :
        (o : Option Job)
        → find_first (is_job key) db.jobs ≡ o
        → (job : Job) × (find_first (is_job key) db.jobs ≡ some job)
    go (some job) e = (job, e)
    go none e = absurd (ground arith)

-- After a cancellation of a job that succeeds the job is CANCELLED, and an attempt of it, at
-- whatever time, changes nothing.
pub attempt-cancel_job :
    (registry : Registry) (now later : Date) (key user : ℕ) (db : JobDb) (row : Job) (db' : JobDb)
    → cancel_job now key user db ≡ ok row db'
    → (row.status ≡ cancelled) × (attempt registry later key db' ≡ db')
unfolding cancel_job get_job update_job
attempt-cancel_job registry now later key user db row db' h =
    let (job, found) = cancel_job-found now key user db h in
    let stop : Job → Job = λ j. record j { status = cancelled; cancelled_at = some now } in
    let jobs : db'.jobs ≡ update_all (is_job key) stop db.jobs = ground arith in
    (
      ground arith,
      attempt_cancelled registry later key db' (stop job)
          (rw jobs (
            find_first-update_self (is_job key) stop db.jobs (λ j fits. fits)
            ∙ ap (Option.map stop) found))
          refl,
    )
