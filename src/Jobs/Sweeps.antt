-- ===== src/Jobs/Sweeps.antt =====
-- Which jobs a sweep attempts, and in which order.
use paywall.Prelude.{◌≤◌, ◌≡◌, true, Option, none, some, List, [], ◌∷◌, Every}
use paywall.Dates.{Date}
use paywall.Jobs.{Job, JobStatus, pending, scheduled, retrying, QueueControl}

-- When a sweep may attempt a job: its status waits for an attempt, no control pauses its queue, and
-- neither of its times lies ahead.
pub data Waiting : JobStatus → Type 0 where
  is_pending : Waiting pending
  is_scheduled : Waiting scheduled
  is_retrying : Waiting retrying

pub data Come (now : Date) : Option Date → Type 0 where
  at_once : Come now none
  since : {t : Date} → t ≤ now → Come now (some t)

pub record Due (now : Date) (controls : List QueueControl) (j : Job) : Type 0 where
  pub waits : Waiting j.status
  pub unpaused : Every (λ c. ¬ ((c.queue_name ≡ j.queue_name) × (c.paused ≡ true))) controls
  pub runs : Come now j.run_at
  pub retries : Come now j.next_attempt_at

-- Most urgent first.
pub data Descending : List Job → Type 0 where
  empty : Descending []
  single : {j : Job} → Descending (j ∷ [])
  step :
      {j k : Job} {js : List Job}
      → k.priority ≤ j.priority
      → Descending (k ∷ js)
      → Descending (j ∷ k ∷ js)
