-- ===== src/Store/Replay.antt =====
-- The outbox as a log: the status of a run that its events tell.
use task_scheduler_mcp.Common.{ℕ, Option, none, some, List, [], ◌∷◌, ◌==◌, if◌then◌else◌}
use task_scheduler_mcp.Store.{RunEvent, RunStatus}

abbrev or_else : Option RunStatus → Option RunStatus → Option RunStatus
or_else (some s) rest = some s
or_else none rest = rest

-- The last status that an event of the run tells.
abbrev pub replay : ℕ → List RunEvent → Option RunStatus
replay run_id [] = none
replay run_id (e ∷ es) =
    let rest = replay run_id es in if e.run_id == run_id then or_else e.status_to rest else rest
