-- ===== src/Workers/Continuation/Stopped.antt =====
-- app/workers/recurring_watcher.py: what the consumer does with the events of a cancelled job.
use task_scheduler_mcp.Jobs.Settle.{settle_check}
use task_scheduler_mcp.Materializer.{Calendar}
use task_scheduler_mcp.Workers.Continuation.{
  downstreams_of, successor_of, stamp, event_of, process_event, materialize_recurring_successor,
}
use task_scheduler_mcp.Store.{JobState, is_none, Job, RunEvent, Db}
use task_scheduler_mcp.Jobs.Settle.Cascade.{settle_check-OnlySettles}
use task_scheduler_mcp.Jobs.Settle.Settled.{Returns, OnlySettles, IsKeyed, actives}
use task_scheduler_mcp.Store.Session.{find_job, ◌>>=◌, ◌>>◌, Result, ok, err}
use task_scheduler_mcp.Common.{ℕ, ◌<◌, ◌≡◌, refl, ap, inl, inr, Bool, some, [], Bool-cases, update}

-- The consumer has stamped the event and created no run.
pub record OnlyStamps (now event_id : ℕ) (before after : Db) : Type 0 where
  pub runs : after.runs ≡ before.runs
  pub next_run_id : after.next_run_id ≡ before.next_run_id
  pub events : after.events ≡ update (event_of event_id) (stamp now) before.events

abbrev stamped : ℕ → ℕ → Db → Db
stamped now event_id db = record db { events = update (event_of event_id) (stamp now) db.events }

stamps :
    (now event_id : ℕ) (db : Db) (r : Result (Bool × Db))
    → Returns (OnlySettles now db) r
    → Returns
        (OnlyStamps now event_id db)
        (elim r [ ok (settled, db') ↦ ok (tt, stamped now event_id db') | err e ↦ err e ])
stamps now event_id db (ok (settled, db')) s = record {
  runs = s.runs;
  next_run_id = s.next_run_id;
  events = ap (update (event_of event_id) (stamp now)) s.events;
}
stamps now event_id db (err e) s = absurd s

no_successor :
    (calendar : Calendar) (now : ℕ) (event : RunEvent) (job : Job) (at : ℕ) (db : Db)
    → job.cancelled_at ≡ some at
    → successor_of calendar now event (some job) db ≡ ok (tt, db)
unfolding materialize_recurring_successor
no_successor calendar now event job at db h = elim (Bool-cases (is_none job.cron_expr)) [
  | inl once ↦ rw once refl
  | inr cron ↦ rw (cron, h) refl
]

no_downstream :
    (now : ℕ) (event : RunEvent) (job : Job) (db : Db)
    → job.state ≡ JobState.cancelled
    → downstreams_of now event (some job) db ≡ ok ([], db)
no_downstream now event job db over = rw over refl

-- An event of a cancelled job fires nothing, neither a successor nor a downstream run, whatever the
-- triggers on it: with fuel above the number of active jobs its processing returns, stamps the event,
-- and leaves the runs as they were.
pub process_event-OnlyStamps :
    (calendar : Calendar) (fuel now : ℕ) (event : RunEvent) (job : Job) (at : ℕ) (db : Db)
    → find_job event.job_id db ≡ some job
    → job.state ≡ JobState.cancelled
    → job.cancelled_at ≡ some at
    → IsKeyed db
    → actives db < fuel
    → Returns (OnlyStamps now event.event_id db) (process_event calendar fuel now event db)
unfolding process_event
process_event-OnlyStamps calendar fuel now event job at db found over cancelled keyed lt =
    rw
      (
        found,
        ◌>>=◌,
        ◌>>◌,
        no_successor calendar now event job at db cancelled,
        found,
        ◌>>=◌,
        no_downstream now event job db over,
      )
      (stamps now event.event_id db (settle_check fuel now event.job_id db)
        (settle_check-OnlySettles fuel now event.job_id db keyed lt))
