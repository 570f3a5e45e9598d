-- ===== src/Workers/Reconciler/Sweeps.antt =====
-- The sweeps of app/workers/reconciler.py keep the invariant of the tables.
use task_scheduler_mcp.Workers.Executor.Invariant.{settle_job-IsWellFormed}
use task_scheduler_mcp.Store.Replay.{replay}
use task_scheduler_mcp.Store.Batch.{
  picked-AreDistinct, picked-rows, batch-IsWellFormed, AreDistinct,
}
use task_scheduler_mcp.Workers.Watcher.Publishing.{is_queued}
use task_scheduler_mcp.Store.Session.{add_event, event_row, update_runs}
use task_scheduler_mcp.Workers.Executor.{fail_run, Registry}
use task_scheduler_mcp.Workers.Executor.Claim.{is_running, RunIs}
use task_scheduler_mcp.Store.WellFormed.{update-IsWellFormed, transition-IsWellFormed, IsWellFormed}
use task_scheduler_mcp.Workers.Reconciler.{
  Graces, reconcile_once, is_orphan, is_stuck, touch, orphan_runs, reset_run, stuck_runs, dlq_runs,
  sweep_running_orphan, recover_all, recover_run, sweep_queued_stuck, resend_all,
  sweep_dlq_retrying,
}
use task_scheduler_mcp.Store.{
  exceeded_max_receive, watcher_send_failed, dlq_reconcile, worker_died, EventType, run_of, Db,
  RunEvent, RunStatus, JobRun,
}
use task_scheduler_mcp.Common.{
  ℕ, ◌+◌, ◌≡◌, refl, ◌≢◌, inl, inr, Bool, true, false, not, ◌&&◌, some, List, [], ◌∷◌, arith,
  if◌then◌else◌, Bool-cases, count, All, All-map, All-intro, All-both, All-update,
}

-- Sweep A keeps the invariant.
sweep_dlq_retrying-IsWellFormed :
    (now later grace batch_size : ℕ) (locked : JobRun → Bool) (db : Db)
    → IsWellFormed db
    → IsWellFormed (sweep_dlq_retrying now later grace batch_size locked db).1
unfolding sweep_dlq_retrying
sweep_dlq_retrying-IsWellFormed now later grace batch_size locked db w =
    let runs = dlq_runs now grace batch_size locked db in
    batch-IsWellFormed later EventType.failed RunStatus.retrying RunStatus.failed
      (λ r. some (dlq_reconcile r.updated_at)) (fail_run later exceeded_max_receive) runs db
      (λ r. record { run_id = refl; job_id = refl; scheduled_at = refl; wait_for_run_id = refl })
      (λ r. refl) w (All-intro db.runs (λ r. ground arith))

touched :
    (now k id : ℕ) (g : RunStatus → Bool) (db : Db)
    → RunIs g k db
    → RunIs g k (update_runs (run_of id) (touch now) db)
touched now k id g db h =
    All-update (run_of id) (touch now) _ db.runs (All-map db.runs (λ r a. ground (arith, a)) h)

resend_row :
    (k : ℕ) (e : RunEvent) (events : List RunEvent) (now : ℕ) (r : JobRun)
    → e.run_id ≡ k
    → e.status_to ≡ some RunStatus.queued
    → (run_of k r ≡ true → is_queued r.status ≡ true)
    → replay r.run_id events ≡ some r.status
    → replay r.run_id (e ∷ events) ≡ some (if run_of k r then touch now r else r).status
resend_row k e events now r about tells is_q told = ground arith

resend_all-IsWellFormed :
    (now : ℕ) (sends : ℕ → Bool) (rs : List JobRun) (db : Db)
    → IsWellFormed db
    → All (λ (s : JobRun). RunIs is_queued s.run_id db) rs
    → IsWellFormed (resend_all now sends rs db).1
unfolding resend_all
resend_all-IsWellFormed now sends [] db w a = w
resend_all-IsWellFormed now sends (r ∷ rs) db w a = elim (Bool-cases (sends r.run_id)) [
  | inr lost ↦ rw (lost, resend_all) (resend_all-IsWellFormed now sends rs db w a.1)
  | inl sent ↦
      let e =
        event_row now db.next_event_id r.run_id r.job_id EventType.reenqueued
          (some RunStatus.queued) (some RunStatus.queued) (some watcher_send_failed) in
      let db' =
        add_event now r.run_id r.job_id EventType.reenqueued (some RunStatus.queued)
          (some RunStatus.queued) (some watcher_send_failed)
          (update_runs (run_of r.run_id) (touch now) db) in
      rw (sent, resend_all)
        (resend_all-IsWellFormed now sends rs db'
          (update-IsWellFormed (run_of r.run_id) (touch now)
            (λ r. record {
              run_id = refl;
              job_id = refl;
              scheduled_at = refl;
              wait_for_run_id = refl;
            })
            db (e ∷ db.events) (db.next_event_id + 1) w (All-intro db.runs (λ s. ground arith))
            (All-map db.runs (λ s h. resend_row r.run_id e db.events now s refl refl h.0 h.1)
              (All-both _ _ db.runs a.0 w.told)))
          (All-map rs (λ s h. touched now s.run_id r.run_id is_queued db h) a.1))
]

-- Sweep B keeps the invariant, whichever messages the queue takes.
sweep_queued_stuck-IsWellFormed :
    (now later grace batch_size : ℕ) (locked : JobRun → Bool) (sends : ℕ → Bool) (db : Db)
    → IsWellFormed db
    → IsWellFormed (sweep_queued_stuck now later grace batch_size locked sends db).1
unfolding sweep_queued_stuck
sweep_queued_stuck-IsWellFormed now later grace batch_size locked sends db w =
    resend_all-IsWellFormed later sends (stuck_runs now grace batch_size locked db) db w (
      All-map (stuck_runs now grace batch_size locked db)
        (λ s rows. All-map db.runs (λ r h of_run. ground (arith, h of_run)) rows)
        (picked-rows (λ r. is_stuck now grace r && not (locked r)) batch_size db w.one_id))

-- The write of a recovery leaves the rows of other runs alone.
pub recovered_other :
    (now k : ℕ) (idempotent : Bool) (g : RunStatus → Bool) (s : JobRun) (db : Db)
    → k ≢ s.run_id
    → RunIs g k db
    → RunIs g k (recover_run now idempotent s db)
unfolding recover_run
recovered_other now k true g s db other h =
    All-update (run_of s.run_id) (reset_run now) _ db.runs
      (All-map db.runs (λ r a. ground (arith, a)) h)
recovered_other now k false g s db other h =
    All-update (run_of s.run_id) (fail_run now worker_died) _ db.runs
      (All-map db.runs (λ r a. ground (arith, a)) h)

recover_run-IsWellFormed :
    (now : ℕ) (idempotent : Bool) (s : JobRun) (db : Db)
    → IsWellFormed db
    → RunIs is_running s.run_id db
    → IsWellFormed (recover_run now idempotent s db)
unfolding recover_run
recover_run-IsWellFormed now true s db w rows =
    transition-IsWellFormed db s.run_id RunStatus.queued (reset_run now) _ _
      (λ r. record { run_id = refl; job_id = refl; scheduled_at = refl; wait_for_run_id = refl })
      (λ r. refl) refl refl w (All-map db.runs (λ r h of_run _. ground (arith, h of_run)) rows)
recover_run-IsWellFormed now false s db w rows = settle_job-IsWellFormed now s.job_id _ (
    transition-IsWellFormed db s.run_id RunStatus.failed (fail_run now worker_died) _ _
      (λ r. record { run_id = refl; job_id = refl; scheduled_at = refl; wait_for_run_id = refl })
      (λ r. refl) refl refl w (All-intro db.runs (λ r. ground arith)))

others :
    (now : ℕ) (idempotent : Bool) (g : RunStatus → Bool) (s : JobRun) (rs : List JobRun) (db : Db)
    → count (run_of s.run_id) rs ≡ 0
    → All (λ (r : JobRun). RunIs g r.run_id db) rs
    → All (λ (r : JobRun). RunIs g r.run_id (recover_run now idempotent s db)) rs
others now idempotent g s [] db apart a = tt
others now idempotent g s (r ∷ rs) db apart a = (
  recovered_other now r.run_id idempotent g s db (ground arith) a.0,
  others now idempotent g s rs db (ground arith) a.1,
)

recover_all-IsWellFormed :
    (now : ℕ) (idempotent : ℕ → Bool) (rs : List JobRun) (db : Db)
    → IsWellFormed db
    → AreDistinct rs
    → All (λ (r : JobRun). RunIs is_running r.run_id db) rs
    → IsWellFormed (recover_all now idempotent rs db)
unfolding recover_all
recover_all-IsWellFormed now idempotent [] db w apart a = w
recover_all-IsWellFormed now idempotent (r ∷ rs) db w apart a =
    recover_all-IsWellFormed now idempotent rs (recover_run now (idempotent r.job_id) r db)
      (recover_run-IsWellFormed now (idempotent r.job_id) r db w a.0) apart.1
      (others now (idempotent r.job_id) is_running r rs db apart.0 a.1)

-- The picked orphans are RUNNING in the table.
orphans_running :
    (now grace batch_size : ℕ) (locked : JobRun → Bool) (db : Db)
    → IsWellFormed db
    → All
        (λ (r : JobRun). RunIs is_running r.run_id db)
        (orphan_runs now grace batch_size locked db)
orphans_running now grace batch_size locked db w =
    All-map (orphan_runs now grace batch_size locked db)
      (λ s rows. All-map db.runs (λ r h of_run. ground (arith, h of_run)) rows)
      (picked-rows (λ r. is_orphan now grace r && not (locked r)) batch_size db w.one_id)

-- Sweep C keeps the invariant, whatever the registry says of the actions.
sweep_running_orphan-IsWellFormed :
    (now later grace batch_size : ℕ) (registry : Registry) (locked : JobRun → Bool)
    (sends : ℕ → Bool) (db : Db)
    → IsWellFormed db
    → IsWellFormed (sweep_running_orphan now later grace batch_size registry locked sends db).1
unfolding sweep_running_orphan
sweep_running_orphan-IsWellFormed now later grace batch_size registry locked sends db w =
    recover_all-IsWellFormed later _ (orphan_runs now grace batch_size locked db) db w
      (picked-AreDistinct (λ r. is_orphan now grace r && not (locked r)) batch_size db w.one_id)
      (orphans_running now grace batch_size locked db w)

-- A tick of the three sweeps keeps the invariant, whatever instants each reads, which rows are locked,
-- which sends fail, and what the registry says of the actions.
pub reconcile_once-IsWellFormed :
    (clock : ℕ → ℕ × ℕ) (graces : Graces) (batch_size : ℕ) (registry : Registry)
    (locked : JobRun → Bool) (sends : ℕ → Bool) (db : Db)
    → IsWellFormed db
    → IsWellFormed (reconcile_once clock graces batch_size registry locked sends db).db
unfolding reconcile_once
reconcile_once-IsWellFormed clock graces batch_size registry locked sends db w =
    sweep_running_orphan-IsWellFormed _ _ graces.running batch_size registry locked sends _ (
      sweep_queued_stuck-IsWellFormed _ _ graces.queued batch_size locked sends _
        (sweep_dlq_retrying-IsWellFormed _ _ graces.dlq batch_size locked db w))
