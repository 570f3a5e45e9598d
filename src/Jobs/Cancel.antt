-- ===== src/Jobs/Cancel.antt =====
-- `cancel_job` of app/domain/jobs.py. `others` is what other sessions commit between the read of the
-- job and its compare-and-set; `fuel` bounds the recursion of `settle_check`.
use task_scheduler_mcp.Jobs.Settle.{is_active_job, settle_downstreams}
use task_scheduler_mcp.Jobs.View.{find_own_job, JobView, newest_runs}
use task_scheduler_mcp.Store.{EventType, run_of, JobState, Db, Job, JobRun, RunStatus}
pub mod Branches
pub mod Flip
pub mod Stopping
use task_scheduler_mcp.Store.Session.{
  job_not_found, invalid_state, no_result_found, raise, or_raise, gets, modify, ◌>>=◌, ◌>>◌, pure,
  Session, find_job, update_jobs, update_runs, add_event,
}
use task_scheduler_mcp.Common.{
  ℕ, zero, suc, ◌+◌, ◌-◌, ◌*◌, ◌/◌, ◌%◌, ◌≤◌, ◌<◌, String, ◌≡◌, refl, ◌∙◌, ◌≢◌, ◌↔◌, ◌⊎◌, inl, inr,
  Bool, true, false, ◌&&◌, ◌||◌, Option, none, some, List, [], ◌∷◌, ◌++◌, ◌==◌, if◌then◌else◌,
  head?, select, exists,
}

abbrev pub is_cancellable : RunStatus → Bool
is_cancellable RunStatus.pending = true
is_cancellable RunStatus.queued = true
is_cancellable RunStatus.retrying = true
is_cancellable _ = false

abbrev status_or_succeeded : Option JobRun → RunStatus
status_or_succeeded none = RunStatus.succeeded
status_or_succeeded (some r) = r.status

-- `_terminal_status_hint`
unfoldable terminal_status_hint : ℕ → Db → RunStatus
unfolding newest_runs
terminal_status_hint job_id db = status_or_succeeded (head? (newest_runs job_id db))

-- `_cancelled_view`
abbrev cancelled_view : Job → JobView
cancelled_view job = record {
  job_id = job.job_id;
  action = job.action;
  job_state = JobState.cancelled;
  latest_run_status = none;
  runs = none;
  description = none;
  job_type = none;
  created_at = none;
  triggered_by = none;
  error_code = none;
  error_message = none;
}

abbrev pub cancel_state : ℕ → Job → Job
cancel_state now j = record j {
  state = JobState.cancelled;
  cancelled_at = some now;
  updated_at = now;
}

abbrev pub same_bucket : JobRun → JobRun → Bool
same_bucket s r =
    (r.time_bucket.utc == s.time_bucket.utc) && (r.time_bucket.wall == s.time_bucket.wall)

-- The primary key of a run.
abbrev pub same_row : JobRun → JobRun → Bool
same_row s r = run_of s.run_id r && same_bucket s r

abbrev pub cancel_status : JobRun → JobRun
cancel_status r = record r { status = RunStatus.cancelled }

-- The loop over the job's runs: pending ones are flipped, a RUNNING one is left alone.
unfoldable pub cancel_runs : ℕ → ℕ → List JobRun → Db → Db
cancel_runs now job_id [] db = db
cancel_runs now job_id (r ∷ rs) db = cancel_runs now job_id rs (
    if is_cancellable r.status
    then add_event now r.run_id job_id EventType.cancelled (some r.status)
        (some RunStatus.cancelled) none (update_runs (same_row r) cancel_status db)
    else db)

-- What follows a compare-and-set that won.
unfoldable pub cancel_active : ℕ → ℕ → ℕ → Session (Unit {0})
unfolding cancel_runs settle_downstreams
cancel_active fuel now job_id = do
  modify (update_jobs (is_active_job job_id) (cancel_state now))
  runs ← gets (λ db. select (λ (r : JobRun). r.job_id == job_id) db.runs)
  modify (cancel_runs now job_id runs)
  settle_downstreams fuel now job_id

-- What follows a compare-and-set that matched no row.
unfoldable cancel_lost : Job → Session JobView
unfolding terminal_status_hint
cancel_lost job = do
  found ← gets (find_job job.job_id)
  fresh ← or_raise found no_result_found
  hint ← gets (terminal_status_hint job.job_id)
  elim fresh.state [
    | JobState.cancelled ↦ pure (cancelled_view job)
    | _ ↦ raise (invalid_state hint)
  ]

-- The compare-and-set `UPDATE … WHERE state = 'active'` and what follows it.
unfoldable cancel_cas : ℕ → ℕ → Job → Session JobView
unfolding cancel_active cancel_lost
cancel_cas fuel now job db =
    if exists (is_active_job job.job_id) db.jobs
    then (do cancel_active fuel now job.job_id; pure (cancelled_view job)) db
    else cancel_lost job db

cancel_by_state : (Db → Db) → ℕ → ℕ → Job → JobState → Session JobView
unfolding cancel_cas terminal_status_hint
cancel_by_state others fuel now job JobState.cancelled = pure (cancelled_view job)
cancel_by_state others fuel now job JobState.completed = do
  hint ← gets (terminal_status_hint job.job_id)
  raise (invalid_state hint)
cancel_by_state others fuel now job JobState.active = do modify others; cancel_cas fuel now job

unfoldable pub cancel_job : (Db → Db) → ℕ → ℕ → String → ℕ → Session JobView
unfolding cancel_by_state
cancel_job others fuel now user_id job_id = do
  found ← gets (find_own_job user_id job_id)
  job ← or_raise found job_not_found
  cancel_by_state others fuel now job job.state
