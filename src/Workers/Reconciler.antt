-- ===== src/Workers/Reconciler.antt =====
-- app/workers/reconciler.py: the three sweeps of a tick. `x < now - grace` is written
-- `x + grace < now`. `locked` says which rows another transaction holds, `sends` for which run ids
-- `send_message_batch` returns, and `registry` is the table of actions.
use task_scheduler_mcp.Store.Batch.{run_ids, is_in, add_events}
use task_scheduler_mcp.Workers.Executor.Claim.{is_running}
use task_scheduler_mcp.Workers.Watcher.{Entry}
use task_scheduler_mcp.Workers.Watcher.Publishing.{is_queued}
use task_scheduler_mcp.Jobs.Settle.{settle_job}
use task_scheduler_mcp.Workers.Executor.{fail_run, Registry, Handler}
use task_scheduler_mcp.Store.{
  worker_died, exceeded_max_receive, run_of, running_orphan, watcher_send_failed, dlq_reconcile,
  EventType, Db, JobRun, RunStatus,
}
pub mod Sweeps
pub mod Recovery
use task_scheduler_mcp.Common.{
  ℕ, zero, suc, ◌+◌, ◌-◌, ◌*◌, ◌/◌, ◌%◌, ◌≤◌, ◌<◌, ◌≡◌, refl, ◌∙◌, ◌≢◌, ◌↔◌, ◌⊎◌, inl, inr, Bool,
  true, false, not, ◌&&◌, ◌||◌, Option, none, some, List, [], ◌∷◌, ◌++◌, map, ltb, ◌==◌,
  if◌then◌else◌, length, take, select, update,
}
use task_scheduler_mcp.Store.Session.{update_runs, add_event, find_job}

-- Sweep A

abbrev is_retrying : RunStatus → Bool
is_retrying RunStatus.retrying = true
is_retrying _ = false

abbrev is_dlq_orphan : ℕ → ℕ → JobRun → Bool
is_dlq_orphan now grace r = is_retrying r.status && ltb (r.updated_at + grace) now

abbrev pub dlq_runs : ℕ → ℕ → ℕ → (JobRun → Bool) → Db → List JobRun
dlq_runs now grace batch_size locked db =
    take batch_size (select (λ r. is_dlq_orphan now grace r && not (locked r)) db.runs)

-- `now` at the select, `later` at the update.
unfoldable pub sweep_dlq_retrying : ℕ → ℕ → ℕ → ℕ → (JobRun → Bool) → Db → ℕ × Db
sweep_dlq_retrying now later grace batch_size locked db =
    let runs = dlq_runs now grace batch_size locked db in
    (
      length runs,
      add_events later EventType.failed RunStatus.retrying RunStatus.failed
          (λ r. some (dlq_reconcile r.updated_at)) runs
          (update_runs (is_in (run_ids runs)) (fail_run later exceeded_max_receive) db),
    )

-- Sweep B

abbrev pub is_stuck : ℕ → ℕ → JobRun → Bool
is_stuck now grace r =
    is_queued r.status && (ltb (r.updated_at + grace) now && ltb r.scheduled_at now)

abbrev pub touch : ℕ → JobRun → JobRun
touch now r = record r { updated_at = now }

abbrev pub entry_at_once : JobRun → Entry
entry_at_once r = record { run_id = r.run_id; job_id = r.job_id; delay_seconds = 0 }

-- The loop over the stuck runs: how many were sent again, the tables, and the messages.
pub resend_all : ℕ → (ℕ → Bool) → List JobRun → Db → ℕ × Db × List Entry
resend_all now sends [] db = (0, db, [])
resend_all now sends (r ∷ rs) db = elim (sends r.run_id) [
  | false ↦ resend_all now sends rs db
  | true ↦
      let (n, db', sent) = resend_all now sends rs (
        add_event now r.run_id r.job_id EventType.reenqueued (some RunStatus.queued)
          (some RunStatus.queued) (some watcher_send_failed)
          (update_runs (run_of r.run_id) (touch now) db)) in
      (n + 1, db', entry_at_once r ∷ sent)
]

abbrev pub stuck_runs : ℕ → ℕ → ℕ → (JobRun → Bool) → Db → List JobRun
stuck_runs now grace batch_size locked db =
    take batch_size (select (λ r. is_stuck now grace r && not (locked r)) db.runs)

unfoldable pub sweep_queued_stuck :
    ℕ → ℕ → ℕ → ℕ → (JobRun → Bool) → (ℕ → Bool) → Db → ℕ × Db × List Entry
unfolding resend_all
sweep_queued_stuck now later grace batch_size locked sends db =
    resend_all later sends (stuck_runs now grace batch_size locked db) db

-- Sweep C

abbrev lease_is_stale : ℕ → ℕ → Option ℕ → Bool
lease_is_stale now grace none = true
lease_is_stale now grace (some at) = ltb (at + grace) now

abbrev pub is_orphan : ℕ → ℕ → JobRun → Bool
is_orphan now grace r = is_running r.status && lease_is_stale now grace r.heartbeat_at

abbrev handler_is_idempotent : Option Handler → Bool
handler_is_idempotent none = false
handler_is_idempotent (some h) = h.idempotent

-- The posture of the action of a run's job; a missing job or action is not idempotent.
unfoldable pub is_idempotent : Registry → ℕ → Db → Bool
is_idempotent registry job_id db = elim (find_job job_id db) [
  | none ↦ false
  | some job ↦ handler_is_idempotent (registry job.action)
]

abbrev pub reset_run : ℕ → JobRun → JobRun
reset_run now r = record r { status = RunStatus.queued; updated_at = now }

unfoldable pub recover_run : ℕ → Bool → JobRun → Db → Db
unfolding settle_job
recover_run now true r db =
    add_event now r.run_id r.job_id EventType.reenqueued (some RunStatus.running)
      (some RunStatus.queued) (some (running_orphan r.heartbeat_at))
      (update_runs (run_of r.run_id) (reset_run now) db)
recover_run now false r db =
    (settle_job now r.job_id (
      add_event now r.run_id r.job_id EventType.failed (some RunStatus.running)
        (some RunStatus.failed) (some (running_orphan r.heartbeat_at))
        (update_runs (run_of r.run_id) (fail_run now worker_died) db))).1

-- The loop over the orphans; `idempotent` is read from the jobs before the loop.
pub recover_all : ℕ → (ℕ → Bool) → List JobRun → Db → Db
recover_all now idempotent [] db = db
recover_all now idempotent (r ∷ rs) db =
    recover_all now idempotent rs (recover_run now (idempotent r.job_id) r db)

abbrev pub orphan_runs : ℕ → ℕ → ℕ → (JobRun → Bool) → Db → List JobRun
orphan_runs now grace batch_size locked db =
    take batch_size (select (λ r. is_orphan now grace r && not (locked r)) db.runs)

-- After the commit, the runs that were reset are sent again, each on its own.
abbrev pub reset_runs : (ℕ → Bool) → List JobRun → List JobRun
reset_runs idempotent runs = select (λ (r : JobRun). idempotent r.job_id) runs

unfoldable pub sweep_running_orphan :
    ℕ → ℕ → ℕ → ℕ → Registry → (JobRun → Bool) → (ℕ → Bool) → Db → ℕ × Db × List Entry
unfolding recover_all
sweep_running_orphan now later grace batch_size registry locked sends db =
    let runs = orphan_runs now grace batch_size locked db in
    let idempotent = λ (job_id : ℕ). is_idempotent registry job_id db in
    (
      length runs,
      recover_all later idempotent runs db,
      map entry_at_once (select (λ (r : JobRun). sends r.run_id) (reset_runs idempotent runs)),
    )

-- The grace times of a tick, from the settings.
pub record Graces : Type 0 where
  pub dlq : ℕ
  pub queued : ℕ
  pub running : ℕ

-- `reconcile_once`: the sweeps in their order, each with its own instants and its own locked rows.
unfoldable pub reconcile_once :
    (ℕ → ℕ × ℕ)
    → Graces
    → ℕ
    → Registry
    → (JobRun → Bool)
    → (ℕ → Bool)
    → Db
    → record { a : ℕ; b : ℕ; c : ℕ; db : Db; sent : List Entry }
unfolding sweep_dlq_retrying sweep_queued_stuck sweep_running_orphan
reconcile_once clock graces batch_size registry locked sends db =
    let (a, db_a) = sweep_dlq_retrying (clock 0).0 (clock 0).1 graces.dlq batch_size locked db in
    let (b, db_b, sent_b) =
      sweep_queued_stuck (clock 1).0 (clock 1).1 graces.queued batch_size locked sends db_a in
    let (c, db_c, sent_c) =
      sweep_running_orphan (clock 2).0 (clock 2).1 graces.running batch_size registry locked sends
        db_b in
    record { a = a; b = b; c = c; db = db_c; sent = sent_b ++ sent_c }
