-- ===== src/Examples/Consumer.antt =====
-- The theorems on the events that the continuation consumer reads, applied.
use task_scheduler_mcp.Materializer.{new_run}
use task_scheduler_mcp.Examples.Calendars.{hourly}
use task_scheduler_mcp.Workers.Continuation.Redelivery.{materialize_downstreams-once}
use task_scheduler_mcp.Store.Session.{event_row}
use task_scheduler_mcp.Examples.{echo_job, at, hourly_job, chained_job, sample}
use task_scheduler_mcp.Workers.Continuation.{process_event, materialize_downstreams}
use task_scheduler_mcp.Workers.Continuation.Stopped.{process_event-OnlyStamps, OnlyStamps}
use task_scheduler_mcp.Store.{JobState, RunStatus, EventType, RunEvent, Db}
use task_scheduler_mcp.Jobs.Settle.Settled.{Returns}
use task_scheduler_mcp.Common.{◌≡◌, refl, none, some, [], ◌∷◌, arith}

-- The one-shot job has been cancelled while a job waits on it.
abbrev cancelled_db : Db
cancelled_db = record sample {
  jobs =
      chained_job
      ∷ hourly_job
      ∷ record echo_job { state = JobState.cancelled; cancelled_at = some 85 }
      ∷ [];
}

abbrev cancelled_event : RunEvent
cancelled_event =
    event_row 85 9 1 1 EventType.cancelled (some RunStatus.queued) (some RunStatus.cancelled) none

process_event-OnlyStamps_example :
    Returns (OnlyStamps 95 9 cancelled_db) (process_event hourly 4 95 cancelled_event cancelled_db)
process_event-OnlyStamps_example =
    process_event-OnlyStamps hourly 4 95 cancelled_event
      (record echo_job { state = JobState.cancelled; cancelled_at = some 85 }) 85 cancelled_db refl
      refl refl (λ k. ground arith) (omega arith)

-- The chained job has run once for the run of the one-shot job.
abbrev fired_db : Db
fired_db = record sample {
  runs = new_run 95 3 chained_job (at 95) RunStatus.succeeded (some 1) ∷ sample.runs;
  next_run_id = 4;
}

abbrev succeeded_event : RunEvent
succeeded_event =
    event_row 90 9 1 1 EventType.succeeded (some RunStatus.running) (some RunStatus.succeeded) none

materialize_downstreams-once_example :
    Returns (λ db'. db'.runs ≡ fired_db.runs) (materialize_downstreams 99 succeeded_event fired_db)
materialize_downstreams-once_example =
    materialize_downstreams-once 99 succeeded_event fired_db (λ h. refl, tt)
