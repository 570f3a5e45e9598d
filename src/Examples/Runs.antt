-- ===== src/Examples/Runs.antt =====
-- The theorems on the runs and the jobs, applied.
use task_scheduler_mcp.Workers.Reconciler.Recovery.{sweep_running_orphan-RunIs, is_recovered}
use task_scheduler_mcp.Workers.Executor.Claim.{RunIs}
use task_scheduler_mcp.Workers.Continuation.Consuming.{poll_once-IsWellFormed}
use task_scheduler_mcp.Workers.Executor.{write_terminal}
use task_scheduler_mcp.Workers.Continuation.Draining.{poll_once-Drains, Drains}
use task_scheduler_mcp.Workers.Watcher.Publishing.{claim_and_publish_sent, IsTimely, is_queued}
use task_scheduler_mcp.Workers.Reconciler.Sweeps.{reconcile_once-IsWellFormed}
use task_scheduler_mcp.Jobs.Settle.{settle_check}
use task_scheduler_mcp.Jobs.Cancel.{cancel_job}
use task_scheduler_mcp.Examples.Calendars.{hourly}
use task_scheduler_mcp.Examples.{
  completed_db-IsKeyed, sample-IsKeyed, finished-IsWellFormed, sample-IsWellFormed, finished,
  completed_db, sample, unlocked, registry,
}
use task_scheduler_mcp.Jobs.Cancel.Branches.{cancel_job-Tells, Tells}
use task_scheduler_mcp.Workers.Continuation.{poll_once}
use task_scheduler_mcp.Workers.Watcher.{Entry, due_runs, claim_and_publish}
use task_scheduler_mcp.Store.{JobRun}
use task_scheduler_mcp.Workers.Reconciler.{
  orphan_runs, is_idempotent, reconcile_once, sweep_running_orphan,
}
use task_scheduler_mcp.Jobs.Settle.Cascade.{settle_check-OnlySettles}
use task_scheduler_mcp.Jobs.Settle.Settled.{OnlySettles, Returns}
use task_scheduler_mcp.Store.WellFormed.{IsWellFormed}
use task_scheduler_mcp.Common.{◌+◌, true, arith, All}

poll_once-IsWellFormed_example : IsWellFormed (poll_once hourly 4 200 50 finished).1
poll_once-IsWellFormed_example =
    poll_once-IsWellFormed hourly 4 200 50 finished finished-IsWellFormed

poll_once-Drains_example : Drains hourly 4 300 50 finished (poll_once hourly 4 200 50 finished)
unfolding write_terminal
poll_once-Drains_example = poll_once-Drains hourly 4 200 300 50 finished (omega arith)

cancel_job-Tells_example : Tells 90 "ann" 1 sample sample (cancel_job (λ d. d) 4 90 "ann" 1 sample)
cancel_job-Tells_example =
    cancel_job-Tells (λ d. d) 4 90 sample sample-IsWellFormed sample-IsKeyed (omega arith) "ann" 1

settle_check-OnlySettles_example :
    Returns (OnlySettles 90 completed_db) (settle_check 4 90 3 completed_db)
settle_check-OnlySettles_example =
    settle_check-OnlySettles 4 90 3 completed_db completed_db-IsKeyed (omega arith)

sweep_running_orphan-RunIs_example :
    let (n, db', sent) = sweep_running_orphan 900 901 100 10 registry unlocked (λ k. true) sample in
    All
      (λ (r : JobRun). RunIs (is_recovered (is_idempotent registry r.job_id sample)) r.run_id db')
      (orphan_runs 900 100 10 unlocked sample)
    × All (λ (e : Entry). RunIs is_queued e.run_id db') sent
sweep_running_orphan-RunIs_example =
    sweep_running_orphan-RunIs 900 901 100 10 registry unlocked (λ k. true) sample
      sample-IsWellFormed

reconcile_once-IsWellFormed_example :
    IsWellFormed
      (reconcile_once
        (λ k. (900 + k, 901 + k))
        (record { dlq = 100; queued = 100; running = 100 })
        10
        registry
        unlocked
        (λ k. true)
        sample).db
reconcile_once-IsWellFormed_example =
    reconcile_once-IsWellFormed (λ k. (900 + k, 901 + k))
      (record { dlq = 100; queued = 100; running = 100 }) 10 registry unlocked (λ k. true) sample
      sample-IsWellFormed

claim_and_publish_sent_example :
    let t = claim_and_publish 90 91 10 unlocked true sample in
    All (λ (e : Entry). RunIs is_queued e.run_id t.db) t.sent
    × All (IsTimely 90 91) (due_runs 90 10 unlocked sample)
unfolding claim_and_publish
claim_and_publish_sent_example = claim_and_publish_sent 90 91 10 unlocked true sample (omega arith)
