-- ===== src/Jobs/Settle.antt =====
-- `settle_job`, `settle_check` and `_settle_downstreams` of app/domain/jobs.py.
-- A transaction runs without other sessions' commits between its statements.
pub mod Settled
pub mod Cascade
use task_scheduler_mcp.Common.{
  suc, zero, ℕ, Bool, true, false, Option, none, some, List, [], ◌∷◌, ◌&&◌, if◌then◌else◌, exists,
  not, map, select,
}
use task_scheduler_mcp.Store.{
  Job, JobState, Db, is_none, is_active, is_recurring, is_some_id, job_of,
}
use task_scheduler_mcp.Store.Session.{
  Session, ok, recursion_error, pure, raise, gets, modify, ◌>>=◌, ◌>>◌, find_job, update_jobs,
}
use task_scheduler_mcp.Materializer.{has_executing_run}

abbrev pub complete : ℕ → Job → Job
complete now j = record j { state = JobState.completed; updated_at = now }

-- The WHERE clause of `settle_job`.
abbrev pub settles : ℕ → Job → Bool
settles job_id j =
    job_of job_id j
    && (is_active j.state && (not (is_recurring j.job_type) && is_none j.trigger_on_job_id))

unfoldable pub settle_job : ℕ → ℕ → Db → Bool × Db
settle_job now job_id db =
    (exists (settles job_id) db.jobs, update_jobs (settles job_id) (complete now) db)

-- `parent_state == "active"`: a missing parent is not.
abbrev pub parent_is_active : Option ℕ → Db → Bool
parent_is_active none db = false
parent_is_active (some parent) db = elim (find_job parent db) [
  | none ↦ false
  | some p ↦ is_active p.state
]

-- The tests of `settle_check`, in their order, up to the compare-and-set.
unfoldable pub is_exhausted : ℕ → Db → Bool
unfolding has_executing_run
is_exhausted job_id db = elim (find_job job_id db) [
  | none ↦ false
  | some job ↦
      if not (is_active job.state)
      then false
      else if not (is_none job.cron_expr)
      then false
      else if has_executing_run job_id db
      then false
      else if parent_is_active job.trigger_on_job_id db
      then false
      else true
]

-- `select(Job.job_id).where(Job.trigger_on_job_id == parent_job_id)`
abbrev pub downstream_ids : ℕ → Db → List ℕ
downstream_ids parent_job_id db =
    map (λ (j : Job). j.job_id)
      (select (λ (j : Job). is_some_id j.trigger_on_job_id parent_job_id) db.jobs)

-- `UPDATE jobs SET state = 'completed' WHERE job_id = … AND state = 'active'`
abbrev pub is_active_job : ℕ → Job → Bool
is_active_job job_id j = job_of job_id j && is_active j.state

abbrev pub each : (ℕ → Session Bool) → List ℕ → Session (Unit {0})
each check [] = pure tt
each check (k ∷ ks) = check k >> each check ks

-- One call: the compare-and-set of an exhausted job, then `check` on each job that it triggers.
abbrev pub settle_with : (ℕ → Session Bool) → ℕ → ℕ → Session Bool
settle_with check now job_id db =
    if is_exhausted job_id db
    then (do
      modify (update_jobs (is_active_job job_id) (complete now))
      ids ← gets (downstream_ids job_id)
      each check ids
      pure true)
        db
    else ok (false, db)

-- `fuel` bounds the depth of the recursion, as the interpreter's stack does.
unfoldable pub settle_check : ℕ → ℕ → ℕ → Session Bool
unfolding is_exhausted
settle_check zero now job_id = raise recursion_error
settle_check (suc fuel) now job_id = settle_with (settle_check fuel now) now job_id

-- `_settle_downstreams`
unfoldable pub settle_downstreams : ℕ → ℕ → ℕ → Session (Unit {0})
settle_downstreams fuel now parent_job_id = do
  ids ← gets (downstream_ids parent_job_id)
  each (settle_check fuel now) ids
