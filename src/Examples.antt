-- ===== src/Examples.antt =====
-- The theorems applied to concrete tables: a one-shot job with a RUNNING run, a recurring job with a
-- due PENDING run, and a job that the first one triggers.
use task_scheduler_mcp.Workers.Executor.Invariant.{write_terminal-IsWellFormed}
use task_scheduler_mcp.Workers.Executor.{
  returned, valid, success, Registry, Handler, write_terminal, ActionResult,
}
mod Web
mod Digests
pub mod Calendars
mod Runs
mod Deliveries
mod Listings
mod Sends
mod Consumer
mod Caps
mod Creating
mod Environment
mod Answers
mod Codec
mod Tokens
mod Load
use task_scheduler_mcp.Store.Session.{event_row}
use task_scheduler_mcp.Materializer.{new_run}
use task_scheduler_mcp.Jobs.Settle.Settled.{IsKeyed}
use task_scheduler_mcp.Store.WellFormed.{IsWellFormed}
use task_scheduler_mcp.Store.{
  EventType, RunStatus, JobState, on_succeeded, JobType, Db, RunEvent, JobRun, DateTime, Job,
}
use task_scheduler_mcp.Common.{
  str_eq, if◌then◌else◌, false, true, Bool, ℕ, none, some, [], ◌∷◌, arith,
}

abbrev pub echo_job : Job
echo_job = record {
  job_id = 1;
  user_id = "ann";
  description = "say hello";
  action = "echo";
  action_params = "{}";
  job_type = JobType.one_shot;
  scheduled_at = some 50;
  cron_expr = none;
  timezone = "UTC";
  cancelled_at = none;
  trigger_on_job_id = none;
  trigger_on_status = none;
  idempotency_key = none;
  state = JobState.active;
  created_at = 10;
  updated_at = 10;
}

abbrev pub hourly_job : Job
hourly_job = record echo_job {
  job_id = 2;
  job_type = JobType.recurring;
  cron_expr = some "0 * * * *";
}

abbrev pub chained_job : Job
chained_job = record echo_job {
  job_id = 3;
  trigger_on_job_id = some 1;
  trigger_on_status = some on_succeeded;
  scheduled_at = none;
}

abbrev pub at : ℕ → DateTime
at t = record { utc = t; wall = t }

abbrev pub running_run : JobRun
running_run = record (new_run 10 1 echo_job (at 50) RunStatus.running none) {
  start_at = some 60;
  heartbeat_at = some 60;
}

abbrev pending_run : JobRun
pending_run = new_run 20 2 hourly_job (at 100) RunStatus.pending none

abbrev started_event : RunEvent
started_event =
    event_row 60 2 1 1 EventType.started (some RunStatus.queued) (some RunStatus.running) none

abbrev pub sample : Db
sample = record {
  jobs = chained_job ∷ hourly_job ∷ echo_job ∷ [];
  runs = pending_run ∷ running_run ∷ [];
  events =
      event_row 20 3 2 2 EventType.created none (some RunStatus.pending) none
      ∷ started_event
      ∷ event_row 10 1 1 1 EventType.created none (some RunStatus.pending) none
      ∷ [];
  next_job_id = 4;
  next_run_id = 3;
  next_event_id = 4;
}

pub sample-IsWellFormed : IsWellFormed sample
sample-IsWellFormed = record {
  fresh = ground arith;
  one_id = λ k. ground arith;
  told = ground arith;
  one_executing = λ j. ground arith;
  one_trigger = λ j u. ground arith;
  one_tick = λ j t. ground arith;
}

pub sample-IsKeyed : IsKeyed sample
sample-IsKeyed = λ k. ground arith

abbrev pub hello : ActionResult
hello = record {
  ok = true;
  result = some "hello";
  error = none;
  error_code = none;
  retryable = false;
}

-- The tables after the one-shot run has succeeded.
abbrev pub finished : Db
finished = write_terminal 90 1 1 success hello sample

pub finished-IsWellFormed : IsWellFormed finished
finished-IsWellFormed = write_terminal-IsWellFormed 90 1 1 success hello sample sample-IsWellFormed

-- The tables after the one-shot job has completed.
abbrev pub completed_db : Db
completed_db = record sample {
  jobs = chained_job ∷ hourly_job ∷ record echo_job { state = JobState.completed } ∷ [];
}

pub completed_db-IsKeyed : IsKeyed completed_db
completed_db-IsKeyed = λ k. ground arith

abbrev pub unlocked : JobRun → Bool
unlocked r = false

abbrev pub echo_handler : Handler
echo_handler = record {
  timeout_seconds = 30;
  requires_operator = false;
  idempotent = true;
  validate = λ document. valid (record { document = document; from_run_id = none });
  execute = λ run params. returned hello;
}

abbrev pub registry : Registry
registry action = if str_eq action "echo" then some echo_handler else none
