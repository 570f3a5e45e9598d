-- ===== src/Workers/Watcher.antt =====
-- app/workers/watcher.py: one tick claims due PENDING runs, marks them QUEUED and, after the commit,
-- publishes them. `locked` says which rows another transaction holds (SKIP LOCKED); the rows are
-- taken in the order of the table, which is any.
use task_scheduler_mcp.Store.Batch.{run_ids, is_in, add_events}
use task_scheduler_mcp.Store.{second, Db, EventType, RunStatus, JobRun, minute}
pub mod Publishing
use task_scheduler_mcp.Store.Session.{update_runs, add_event}
use task_scheduler_mcp.Common.{
  max, ℕ, zero, suc, ◌+◌, ◌-◌, ◌*◌, ◌/◌, ◌%◌, ◌≤◌, ◌<◌, ◌≡◌, refl, ◌∙◌, ◌≢◌, ◌↔◌, ◌⊎◌, inl, inr,
  Bool, true, false, not, ◌&&◌, ◌||◌, none, some, List, [], ◌∷◌, ◌++◌, map, ltb, ◌==◌,
  if◌then◌else◌, length, take, select,
}

abbrev pub lookahead : ℕ
lookahead = 5 * minute

-- A message on the queue: its body, and the delay in seconds before it shows.
pub record Entry : Type 0 where
  pub run_id : ℕ
  pub job_id : ℕ
  pub delay_seconds : ℕ

abbrev is_pending : RunStatus → Bool
is_pending RunStatus.pending = true
is_pending _ = false

-- The WHERE clause of the claim.
abbrev pub is_due : ℕ → JobRun → Bool
is_due now r = is_pending r.status && ltb r.scheduled_at (now + lookahead)

abbrev pub queue_run : ℕ → JobRun → JobRun
queue_run now r = record r { status = RunStatus.queued; updated_at = now }

-- `max(0, int((run.scheduled_at - now).total_seconds()))`
abbrev pub entry_of : ℕ → JobRun → Entry
entry_of now r = record {
  run_id = r.run_id;
  job_id = r.job_id;
  delay_seconds = (r.scheduled_at - now) / second;
}

unfoldable pub due_runs : ℕ → ℕ → (JobRun → Bool) → Db → List JobRun
due_runs now batch_size locked db =
    take batch_size (select (λ r. is_due now r && not (locked r)) db.runs)

unfoldable pub queue_runs : ℕ → List JobRun → Db → Db
queue_runs now runs db =
    add_events now EventType.queued RunStatus.pending RunStatus.queued (λ r. none) runs
      (update_runs (is_in (run_ids runs)) (queue_run now) db)

pub record Tick : Type 0 where
  pub claimed : ℕ
  pub db : Db
  pub sent_at : ℕ
  pub sent : List Entry

-- `now` is read before the transaction; `sent_at` is the instant after the commit at which the queue
-- takes the batch. `sends` says whether `send_message_batch` returns; an error is logged and the rows
-- stay QUEUED.
unfoldable pub claim_and_publish : ℕ → ℕ → ℕ → (JobRun → Bool) → Bool → Db → Tick
unfolding due_runs queue_runs
claim_and_publish now sent_at batch_size locked sends db =
    let runs = due_runs now batch_size locked db in
    record {
      claimed = length runs;
      db = queue_runs now runs db;
      sent_at = sent_at;
      sent = if sends then map (entry_of now) runs else [];
    }
