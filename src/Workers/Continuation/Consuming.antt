-- ===== src/Workers/Continuation/Consuming.antt =====
-- The continuation consumer keeps the invariant of the tables.
use task_scheduler_mcp.Materializer.Spawning.{spawn_run-IsWellFormed}
use task_scheduler_mcp.Materializer.{Calendar}
use task_scheduler_mcp.Workers.Continuation.Keeping.{IsKept, process_events-Keeps}
use task_scheduler_mcp.Workers.Continuation.{pending_events, poll_block, poll_once, stamp, event_of}
use task_scheduler_mcp.Store.WellFormed.{IsWellFormed}
use task_scheduler_mcp.Store.Keeps.{Keeps-begin, Keeps-gets, Keeps-bind, Keeps-pure}
use task_scheduler_mcp.Store.Replay.{replay}
use task_scheduler_mcp.Store.{Job, RunEvent, Db}
use task_scheduler_mcp.Common.{length, ℕ, ◌≡◌, refl, ◌∙◌, List, [], ◌∷◌, arith, update, All-map}

-- Events that tell the same statuses keep the invariant.
retell-IsWellFormed :
    (db : Db) (events : List RunEvent) (next_event_id : ℕ)
    → ((k : ℕ) → replay k events ≡ replay k db.events)
    → IsWellFormed db
    → IsWellFormed (record db { events = events; next_event_id = next_event_id })
retell-IsWellFormed db events next_event_id same w = record {
  fresh = w.fresh;
  one_id = w.one_id;
  told = All-map db.runs (λ r h. same r.run_id ∙ h) w.told;
  one_executing = w.one_executing;
  one_trigger = w.one_trigger;
  one_tick = w.one_tick;
}

replay-stamp :
    (now id k : ℕ) (events : List RunEvent)
    → replay k (update (event_of id) (stamp now) events) ≡ replay k events
replay-stamp now id k [] = refl
replay-stamp now id k (e ∷ es) = ground (arith, replay-stamp now id k es)

-- Jobs are no part of the invariant.
pub rejob-IsWellFormed :
    (db : Db) (jobs : List Job) → IsWellFormed db → IsWellFormed (record db { jobs = jobs })
rejob-IsWellFormed db jobs w = record {
  fresh = w.fresh;
  one_id = w.one_id;
  told = w.told;
  one_executing = w.one_executing;
  one_trigger = w.one_trigger;
  one_tick = w.one_tick;
}

IsWellFormed-IsKept : IsKept IsWellFormed
IsWellFormed-IsKept = record {
  spawns = spawn_run-IsWellFormed;
  audits = λ now event t document other db w. retell-IsWellFormed db _ _ (λ k. ground arith) w;
  jobs = rejob-IsWellFormed;
  stamps = λ now event_id db w.
      retell-IsWellFormed db _ db.next_event_id (λ k. replay-stamp now event_id k db.events) w;
}

-- A tick of the consumer, committed or rolled back, keeps the invariant: no job gets a second
-- executing run, no cause a second run, and the outbox tells the status of every run.
pub poll_once-IsWellFormed :
    (calendar : Calendar) (fuel now batch_size : ℕ) (db : Db)
    → IsWellFormed db
    → IsWellFormed (poll_once calendar fuel now batch_size db).1
unfolding poll_once
poll_once-IsWellFormed calendar fuel now batch_size db w =
    Keeps-begin (poll_block calendar fuel now batch_size) db
      (Keeps-bind _ _ (Keeps-gets (pending_events batch_size)) λ events.
        Keeps-bind _ _
          (process_events-Keeps IsWellFormed IsWellFormed-IsKept calendar fuel now events)
          λ _. Keeps-pure (length events))
      w
