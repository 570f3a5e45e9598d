-- ===== src/Workers/Executor/Late.antt =====
-- A worker that the reconciler has given up, and that writes its outcome late.
use task_scheduler_mcp.Workers.Executor.{retry_run, write_retrying}
use task_scheduler_mcp.Store.{Db, Message, executes, run_of, JobRun}
use task_scheduler_mcp.Common.{
  ℕ, ◌+◌, ◌≤◌, ◌≡◌, ◌≢◌, Bool, true, ◌&&◌, List, [], ◌∷◌, arith, ◌==◌, update, exists, count,
  count-exists,
}

abbrev executes_as : ℕ → ℕ → JobRun → Bool
executes_as run_id job_id r = run_of run_id r && executes job_id r

two_runs :
    (a b job_id : ℕ) (runs : List JobRun)
    → a ≢ b
    → count (executes_as a job_id) runs + count (executes_as b job_id) runs
      ≤ count (executes job_id) runs
two_runs a b job_id [] other = omega arith
two_runs a b job_id (r ∷ rs) other = ground (arith, two_runs a b job_id rs)

module _ (now run_id job_id live : ℕ) (m : Message) where
  abbrev written : List JobRun → List JobRun
  written runs = update (run_of run_id) (retry_run now m) runs

  still_there :
      (runs : List JobRun)
      → live ≢ run_id
      → exists (executes_as live job_id) runs ≡ true
      → exists (executes_as live job_id) (written runs) ≡ true
  still_there [] other h = h
  still_there (r ∷ rs) other h = ground (arith, still_there rs other)

  woken :
      (runs : List JobRun)
      → exists (λ (r : JobRun). run_of run_id r && (r.job_id == job_id)) runs ≡ true
      → exists (executes_as run_id job_id) (written runs) ≡ true
  woken [] h = cc
  woken (r ∷ rs) h = ground (arith, woken rs)

-- The write has no test of the run's status. Where the run was already given up and its job has
-- another executing run, a late RETRYING leaves the job with two executing runs.
pub write_retrying_late :
    (now run_id job_id live : ℕ) (m : Message) (db : Db)
    → live ≢ run_id
    → exists (executes_as live job_id) db.runs ≡ true
    → exists (λ (r : JobRun). run_of run_id r && (r.job_id == job_id)) db.runs ≡ true
    → 2 ≤ count (executes job_id) (write_retrying now run_id job_id m db).runs
unfolding write_retrying
write_retrying_late now run_id job_id live m db other a b =
    let runs = written now run_id job_id live m db.runs in
    omega (
      arith,
      two_runs live run_id job_id runs other,
      count-exists (executes_as live job_id) runs
          (still_there now run_id job_id live m db.runs other a),
      count-exists (executes_as run_id job_id) runs (woken now run_id job_id live m db.runs b),
    )
