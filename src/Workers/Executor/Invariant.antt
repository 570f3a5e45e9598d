-- ===== src/Workers/Executor/Invariant.antt =====
-- The writes of app/workers/executor.py keep the invariant of the tables.
use task_scheduler_mcp.Store.Session.{find_run, event_row}
use task_scheduler_mcp.Store.Replay.{replay}
use task_scheduler_mcp.Workers.Executor.Claim.{claimable_rows, RunIs}
use task_scheduler_mcp.Jobs.Settle.{settle_job}
use task_scheduler_mcp.Workers.Executor.{
  status_or_queued, retry_run, finish_run, fail_run, terminal_status, claimable, is_claimable,
  ActionResult, Terminal, start_run, bump_heartbeat_at, write_retrying, write_permanent_failure,
  write_terminal, claim,
}
use task_scheduler_mcp.Store.WellFormed.{
  update-IsWellFormed, transition-IsWellFormed, IsWellFormed, SameKeys,
}
use task_scheduler_mcp.Store.{
  EventType, is_executing, EventData, run_of, Message, Db, RunStatus, RunEvent, JobRun,
}
use task_scheduler_mcp.Common.{
  none, ℕ, ◌≡◌, refl, inl, inr, true, Option, some, List, ◌∷◌, arith, if◌then◌else◌, Bool-cases,
  exists, All-map, All-intro, All-both,
}

start_run-SameKeys : (now : ℕ) (r : JobRun) → SameKeys r (start_run now r)
start_run-SameKeys now r = record {
  run_id = refl;
  job_id = refl;
  scheduled_at = refl;
  wait_for_run_id = refl;
}

row_told :
    (now run_id : ℕ) (e : RunEvent) (events : List RunEvent) (r : JobRun)
    → e.run_id ≡ run_id
    → e.status_to ≡ some RunStatus.running
    → (run_of run_id r ≡ true → is_claimable r.status ≡ true)
    → replay r.run_id events ≡ some r.status
    → replay r.run_id (e ∷ events) ≡ some (if claimable run_id r then start_run now r else r).status
row_told now run_id e events r about tells open_row told = ground arith

-- A claim, won or lost, keeps the invariant.
pub claim-IsWellFormed :
    (now run_id job_id : ℕ) (db : Db)
    → IsWellFormed db
    → IsWellFormed (claim now run_id job_id db).1
unfolding claim
claim-IsWellFormed now run_id job_id db w = elim (Bool-cases (exists (claimable run_id) db.runs)) [
  | inr lost ↦ rw lost w
  | inl open_rows ↦
      let rows = claimable_rows run_id db (w.one_id run_id) open_rows in
      rw open_rows (
        update-IsWellFormed (claimable run_id) (start_run now) (start_run-SameKeys now) db _ _ w
          (All-intro db.runs (λ r. ground arith))
          (All-map db.runs
            (λ r h.
              row_told now run_id
                (event_row now db.next_event_id run_id job_id EventType.started
                  (some (status_or_queued (find_run run_id db))) (some RunStatus.running) none)
                db.events r refl refl h.0 h.1)
            (All-both _ _ db.runs rows w.told)))
]

-- `settle_job` writes no run and no event.
pub settle_job-IsWellFormed :
    (now job_id : ℕ) (db : Db) → IsWellFormed db → IsWellFormed (settle_job now job_id db).1
unfolding settle_job
settle_job-IsWellFormed now job_id db w = record {
  fresh = w.fresh;
  one_id = w.one_id;
  told = w.told;
  one_executing = w.one_executing;
  one_trigger = w.one_trigger;
  one_tick = w.one_tick;
}

-- A terminal write keeps the invariant, whatever the run's status was.
pub write_terminal-IsWellFormed :
    (now run_id job_id : ℕ) (t : Terminal) (a : ActionResult) (db : Db)
    → IsWellFormed db
    → IsWellFormed (write_terminal now run_id job_id t a db)
unfolding write_terminal
write_terminal-IsWellFormed now run_id job_id t a db w = settle_job-IsWellFormed now job_id _ (
    transition-IsWellFormed db run_id (terminal_status t) (finish_run now (terminal_status t) a) _ _
      (λ r. record { run_id = refl; job_id = refl; scheduled_at = refl; wait_for_run_id = refl })
      (λ r. refl) refl refl w (All-intro db.runs (λ r. ground arith)))

pub write_permanent_failure-IsWellFormed :
    (now run_id job_id : ℕ) (m : Message) (data_of : Option EventData) (db : Db)
    → IsWellFormed db
    → IsWellFormed (write_permanent_failure now run_id job_id m data_of db)
unfolding write_permanent_failure
write_permanent_failure-IsWellFormed now run_id job_id m data_of db w =
    settle_job-IsWellFormed now job_id _ (
      transition-IsWellFormed db run_id RunStatus.failed (fail_run now m) _ _
        (λ r. record { run_id = refl; job_id = refl; scheduled_at = refl; wait_for_run_id = refl })
        (λ r. refl) refl refl w (All-intro db.runs (λ r. ground arith)))

-- A retry write keeps the invariant where the run is still executing.
pub write_retrying-IsWellFormed :
    (now run_id job_id : ℕ) (m : Message) (db : Db)
    → IsWellFormed db
    → RunIs is_executing run_id db
    → IsWellFormed (write_retrying now run_id job_id m db)
unfolding write_retrying
write_retrying-IsWellFormed now run_id job_id m db w still =
    transition-IsWellFormed db run_id RunStatus.retrying (retry_run now m) _ _
      (λ r. record { run_id = refl; job_id = refl; scheduled_at = refl; wait_for_run_id = refl })
      (λ r. refl) refl refl w (All-map db.runs (λ r h of_run _. h of_run) still)

-- A heartbeat writes no status.
pub bump_heartbeat_at-IsWellFormed :
    (now run_id : ℕ) (db : Db) → IsWellFormed db → IsWellFormed (bump_heartbeat_at now run_id db)
unfolding bump_heartbeat_at
bump_heartbeat_at-IsWellFormed now run_id db w =
    update-IsWellFormed (run_of run_id) (λ r. record r { heartbeat_at = some now })
      (λ r. record { run_id = refl; job_id = refl; scheduled_at = refl; wait_for_run_id = refl }) db
      db.events db.next_event_id w (All-intro db.runs (λ r. ground arith))
      (All-map db.runs (λ r h. ground arith) w.told)
