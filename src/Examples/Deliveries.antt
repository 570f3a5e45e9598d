-- ===== src/Examples/Deliveries.antt =====
-- The theorems on the creation and the delivery of a run, applied.

use task_scheduler_mcp.Workers.Executor.Late.{write_retrying_late}
use task_scheduler_mcp.Workers.Executor.Invariant.{bump_heartbeat_at-IsWellFormed}
use task_scheduler_mcp.Workers.Executor.Claim.{is_running, claim_once, RunIs}
use task_scheduler_mcp.Examples.{
  running_run, echo_job, sample-IsWellFormed, at, echo_handler, registry, sample,
}
use task_scheduler_mcp.Materializer.{new_run}
use task_scheduler_mcp.Store.{run_of, RunStatus, text, executes, Db}
use task_scheduler_mcp.Store.WellFormed.{IsWellFormed}
use task_scheduler_mcp.Workers.Executor.Delivery.{
  dispatch_handler-RunIs, matches_receipt, dispatch-IsWellFormed, Calm,
}
use task_scheduler_mcp.Workers.Executor.{
  write_retrying, dispatch, dispatch_handler, bump_heartbeat_at, claim,
}
use task_scheduler_mcp.Common.{
  ◌≤◌, ◌≡◌, refl, true, false, none, some, [], ◌∷◌, arith, count, All-map, All-update,
}

won : (claim 70 2 2 sample).0 ≡ true
unfolding claim
won = refl

beats-RunIs : (db : Db) → RunIs is_running 2 db → RunIs is_running 2 (bump_heartbeat_at 75 2 db)
unfolding bump_heartbeat_at
beats-RunIs db h =
    All-update (run_of 2) (λ r. record r { heartbeat_at = some 75 }) _ db.runs
      (All-map db.runs (λ r k. ground (arith, k)) h)

claim_once_example :
    let seen = bump_heartbeat_at 75 2 (claim 70 2 2 sample).1 in claim 80 2 2 seen ≡ (false, seen)
claim_once_example =
    claim_once 70 80 2 2 (bump_heartbeat_at 75 2) sample sample-IsWellFormed won beats-RunIs

-- A heartbeat while the action runs.
beats-Calm : Calm registry (bump_heartbeat_at 75 2) 70 80 2 2
beats-Calm = λ db w r. (bump_heartbeat_at-IsWellFormed 75 2 db w, beats-RunIs db r)

dispatch-IsWellFormed_example :
    IsWellFormed (dispatch registry (bump_heartbeat_at 75 2) 70 80 2 2 sample).0
dispatch-IsWellFormed_example =
    dispatch-IsWellFormed registry (bump_heartbeat_at 75 2) 70 80 2 2 sample beats-Calm
      sample-IsWellFormed

dispatch_handler-RunIs_example :
    let (db', receipt) =
      dispatch_handler registry
        (bump_heartbeat_at 75 1)
        70
        80
        1
        1
        (some echo_handler)
        echo_job
        running_run
        sample in
    RunIs (matches_receipt receipt) 1 db'
dispatch_handler-RunIs_example =
    dispatch_handler-RunIs registry (bump_heartbeat_at 75 1) 70 80 1 1 (some echo_handler) echo_job
      running_run sample

-- The run of the one-shot job has been given up, and the job has a second run.
abbrev given_up : Db
given_up = record sample {
  runs =
      new_run 70 2 echo_job (at 70) RunStatus.pending none
      ∷ record running_run { status = RunStatus.failed }
      ∷ [];
}

write_retrying_late_example :
    2 ≤ count (executes 1) (write_retrying 95 1 1 (text "late") given_up).runs
write_retrying_late_example =
    write_retrying_late 95 1 1 2 (text "late") given_up (λ h. cc) refl refl
