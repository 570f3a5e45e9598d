-- ===== src/Mcp/StatusMapping/RoundTrip.antt =====
-- The tables of app/mcp/status_mapping.py agree with one another.
use task_scheduler_mcp.Mcp.StatusMapping.{status_name, to_internal_set, to_external, mem_text}
use task_scheduler_mcp.Store.{RunStatus}
use task_scheduler_mcp.Common.{String, ◌≡◌, refl, Bool, false, Option, none, some, List, str_eq}

-- The five statuses that a client sees.
pub data External : Type 0 where
  scheduled running completed failed cancelled : External

abbrev pub external_name : External → String
external_name scheduled = "scheduled"
external_name running = "running"
external_name completed = "completed"
external_name failed = "failed"
external_name cancelled = "cancelled"

-- The external status of a run status, as a table of the two types.
abbrev external_of : RunStatus → External
external_of RunStatus.pending = scheduled
external_of RunStatus.queued = scheduled
external_of RunStatus.running = running
external_of RunStatus.retrying = running
external_of RunStatus.succeeded = completed
external_of RunStatus.failed = failed
external_of RunStatus.cancelled = cancelled

abbrev is_in_set : Option (List String) → String → Bool
is_in_set none s = false
is_in_set (some names) s = mem_text s names

-- Every run status has an external status, and the set of an external status holds a run status
-- exactly when that is its external status.
to_internal_set-to_external :
    (s : RunStatus) (e : External)
    → (to_external (status_name s) ≡ some (external_name (external_of s)))
      × (is_in_set (to_internal_set (external_name e)) (status_name s)
          ≡ str_eq (external_name (external_of s)) (external_name e))
unfolding to_external to_internal_set
to_internal_set-to_external RunStatus.pending scheduled = (refl, refl)
to_internal_set-to_external RunStatus.queued scheduled = (refl, refl)
to_internal_set-to_external RunStatus.running scheduled = (refl, refl)
to_internal_set-to_external RunStatus.retrying scheduled = (refl, refl)
to_internal_set-to_external RunStatus.succeeded scheduled = (refl, refl)
to_internal_set-to_external RunStatus.failed scheduled = (refl, refl)
to_internal_set-to_external RunStatus.cancelled scheduled = (refl, refl)
to_internal_set-to_external _ _ = (refl, refl)
