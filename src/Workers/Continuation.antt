-- ===== src/Workers/Continuation.antt =====
-- app/workers/recurring_watcher.py: the continuation consumer. `fuel` bounds the recursion of
-- `settle_check`; `now` is the instant of the tick's writes.
use task_scheduler_mcp.Jobs.Settle.{each, settle_check}
use task_scheduler_mcp.Materializer.{Calendar, materialize_downstream, materialize_successor}
use task_scheduler_mcp.Store.{
  predicate_miss, slow_consumer, EventData, JobState, on_failed, is_active, run_of, is_some_id,
  is_none, JobRun, on_succeeded, on_any, EventType, RunEvent, Job, Db, TriggerStatus,
}
pub mod Consuming
pub mod Draining
pub mod Keeping
pub mod Pending
pub mod Stopped
pub mod Redelivery
use task_scheduler_mcp.Store.Session.{
  no_result_found, integrity_error, or_raise, concurrency_error, begin, ◌>>◌, gets, raise, Result,
  pure, try_nested, modify, Error, ◌>>=◌, Session, add_event, find_job,
}
use task_scheduler_mcp.Common.{
  suc, ℕ, zero, ◌+◌, ◌-◌, ◌*◌, ◌/◌, ◌%◌, ◌≤◌, ◌<◌, ◌≡◌, refl, ◌∙◌, ◌≢◌, ◌↔◌, ◌⊎◌, inl, inr, Bool,
  true, false, not, ◌&&◌, ◌||◌, Option, none, some, List, [], ◌∷◌, ◌++◌, map, leb, ◌==◌,
  if◌then◌else◌, length, take, head?, select, update, order_by,
}

-- `effective in ("ANY", event_type)`
abbrev trigger_matches : TriggerStatus → EventType → Bool
trigger_matches on_any t = true
trigger_matches on_succeeded EventType.succeeded = true
trigger_matches on_failed EventType.failed = true
trigger_matches _ _ = false

-- `_triggers_on`
unfoldable pub triggers_on : Option TriggerStatus → EventType → Bool
triggers_on none t = trigger_matches on_succeeded t
triggers_on (some s) t = trigger_matches s t

-- A block whose value nobody reads.
abbrev pub void : {A : Type 0} → Session A → Session (Unit {0})
void m = m >>= λ _. pure tt

-- `except ConcurrencyError: …` and `except IntegrityError: …`; any other error goes on.
abbrev pub on_skip : Session (Unit {0}) → Error → Session (Unit {0})
on_skip slow concurrency_error = slow
on_skip slow integrity_error = pure tt
on_skip slow e = raise e

-- `select(JobRun).where(run_id == …, job_id == …)`
abbrev pub find_run_of : ℕ → ℕ → Db → Option JobRun
find_run_of run_id job_id db =
    head? (select (λ (r : JobRun). run_of run_id r && (r.job_id == job_id)) db.runs)

-- `_materialize_recurring_successor`
unfoldable pub materialize_recurring_successor : Calendar → ℕ → RunEvent → Job → Session (Unit {0})
unfolding materialize_successor
materialize_recurring_successor calendar now event upstream_job =
    if not (is_none upstream_job.cancelled_at) then pure tt else do
      found ← gets (find_run_of event.run_id upstream_job.job_id)
      prev_run ← or_raise found no_result_found
      try_nested (void (materialize_successor calendar now upstream_job prev_run event.occurred_at))
          (on_skip (pure tt))

abbrev pub is_active_downstream : ℕ → Job → Bool
is_active_downstream job_id j = is_some_id j.trigger_on_job_id job_id && is_active j.state

abbrev pub audit : ℕ → RunEvent → EventType → EventData → Session (Unit {0})
audit now event t document =
    modify (add_event now event.run_id event.job_id t none none (some document))

-- The body of the loop over the downstream jobs.
unfoldable pub materialize_one : ℕ → RunEvent → Job → Session (Unit {0})
unfolding materialize_downstream triggers_on
materialize_one now event downstream =
    if triggers_on downstream.trigger_on_status event.event_type
    then try_nested (void (materialize_downstream now downstream event.run_id event.occurred_at)) (
        on_skip (
          audit now event EventType.chain_skipped_slow_consumer
            (slow_consumer downstream.job_id event.event_type)))
    else audit now event EventType.chain_skipped_predicate_miss
        (predicate_miss downstream.job_id downstream.trigger_on_status event.event_type)

abbrev pub each_job : (Job → Session (Unit {0})) → List Job → Session (Unit {0})
each_job f [] = pure tt
each_job f (j ∷ js) = f j >> each_job f js

-- `_materialize_downstreams`
unfoldable pub materialize_downstreams : ℕ → RunEvent → Session (List Job)
unfolding materialize_one
materialize_downstreams now event = do
  downstream_jobs ← gets (λ db. select (is_active_downstream event.job_id) db.jobs)
  each_job (materialize_one now event) downstream_jobs
  pure downstream_jobs

abbrev is_terminal_event : EventType → Bool
is_terminal_event EventType.succeeded = true
is_terminal_event EventType.failed = true
is_terminal_event EventType.cancelled = true
is_terminal_event _ = false

abbrev pub event_of : ℕ → RunEvent → Bool
event_of event_id e = e.event_id == event_id

abbrev pub stamp : ℕ → RunEvent → RunEvent
stamp now e = record e { processed = some now }

abbrev pub successor_of : Calendar → ℕ → RunEvent → Option Job → Session (Unit {0})
successor_of calendar now event none = pure tt
successor_of calendar now event (some job) =
    if is_none job.cron_expr
    then pure tt
    else materialize_recurring_successor calendar now event job

-- `upstream_job is None or upstream_job.state != "cancelled"`
abbrev pub may_fire : Option Job → Bool
may_fire none = true
may_fire (some job) = elim job.state [ JobState.cancelled ↦ false | _ ↦ true ]

abbrev pub downstreams_of : ℕ → RunEvent → Option Job → Session (List Job)
downstreams_of now event upstream =
    if may_fire upstream then materialize_downstreams now event else pure []

-- The body of the loop over the events.
unfoldable pub process_event : Calendar → ℕ → ℕ → RunEvent → Session (Unit {0})
unfolding materialize_recurring_successor materialize_downstreams settle_check
process_event calendar fuel now event = do
  upstream ← gets (find_job event.job_id)
  successor_of calendar now event upstream
  downstream_jobs ← downstreams_of now event upstream
  settle_check fuel now event.job_id
  each (settle_check fuel now) (map (λ (j : Job). j.job_id) downstream_jobs)
  modify (λ db. record db { events = update (event_of event.event_id) (stamp now) db.events })

-- `_materialize` and settle for every unprocessed terminal event, oldest first.
unfoldable pub pending_events : ℕ → Db → List RunEvent
pending_events batch_size db = take batch_size (
    order_by (λ (a b : RunEvent). leb a.event_id b.event_id)
      (select (λ (e : RunEvent). is_terminal_event e.event_type && is_none e.processed) db.events))

abbrev pub each_event : (RunEvent → Session (Unit {0})) → List RunEvent → Session (Unit {0})
each_event f [] = pure tt
each_event f (e ∷ es) = f e >> each_event f es

unfoldable pub poll_block : Calendar → ℕ → ℕ → ℕ → Session ℕ
unfolding process_event pending_events
poll_block calendar fuel now batch_size = do
  events ← gets (pending_events batch_size)
  each_event (process_event calendar fuel now) events
  pure (length events)

-- One tick is one transaction: an event whose processing raises undoes the whole tick.
unfoldable pub poll_once : Calendar → ℕ → ℕ → ℕ → Db → Result ℕ × Db
unfolding poll_block
poll_once calendar fuel now batch_size db = begin (poll_block calendar fuel now batch_size) db
