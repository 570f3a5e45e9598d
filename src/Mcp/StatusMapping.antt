-- ===== src/Mcp/StatusMapping.antt =====
-- app/mcp/status_mapping.py, over the texts that the columns and the clients hold. `none` stands for
-- the ValueError on an unknown text.
pub mod RoundTrip
use task_scheduler_mcp.Store.{RunStatus, JobState}
use task_scheduler_mcp.Common.{
  ℕ, zero, suc, ◌+◌, ◌-◌, ◌*◌, ◌/◌, ◌%◌, ◌≤◌, ◌<◌, String, ◌≡◌, refl, ◌∙◌, ◌≢◌, ◌↔◌, ◌⊎◌, inl, inr,
  Bool, true, false, ◌&&◌, ◌||◌, Option, none, some, List, [], ◌∷◌, ◌++◌, str_eq, ◌==◌,
  if◌then◌else◌,
}

-- The text in the column `status`.
abbrev pub status_name : RunStatus → String
status_name RunStatus.pending = "PENDING"
status_name RunStatus.queued = "QUEUED"
status_name RunStatus.running = "RUNNING"
status_name RunStatus.retrying = "RETRYING"
status_name RunStatus.succeeded = "SUCCEEDED"
status_name RunStatus.failed = "FAILED"
status_name RunStatus.cancelled = "CANCELLED"

-- The text in the column `state`.
abbrev pub state_name : JobState → String
state_name JobState.active = "active"
state_name JobState.completed = "completed"
state_name JobState.cancelled = "cancelled"

-- `d[k]` of a dict literal, and membership in a frozenset of texts.
abbrev pub lookup {ℓ} : {V : Type ℓ} → String → List (String × V) → Option V
lookup k [] = none
lookup k ((j, v) ∷ m) = let rest = lookup k m in if str_eq j k then some v else rest

abbrev pub mem_text : String → List String → Bool
mem_text s [] = false
mem_text s (t ∷ ts) = str_eq t s || mem_text s ts

-- `_MAPPING`
abbrev mapping : List (String × String)
mapping =
    ("PENDING", "scheduled")
    ∷ ("QUEUED", "scheduled")
    ∷ ("RUNNING", "running")
    ∷ ("RETRYING", "running")
    ∷ ("SUCCEEDED", "completed")
    ∷ ("FAILED", "failed")
    ∷ ("CANCELLED", "cancelled")
    ∷ []

-- `_REVERSE_MAPPING`
abbrev reverse_mapping : List (String × List String)
reverse_mapping =
    ("scheduled", "PENDING" ∷ "QUEUED" ∷ [])
    ∷ ("running", "RUNNING" ∷ "RETRYING" ∷ [])
    ∷ ("completed", "SUCCEEDED" ∷ [])
    ∷ ("failed", "FAILED" ∷ [])
    ∷ ("cancelled", "CANCELLED" ∷ [])
    ∷ []

-- `_JOB_STATE_MAPPING`
abbrev job_state_mapping : List (String × String)
job_state_mapping =
    ("active", "scheduled") ∷ ("completed", "completed") ∷ ("cancelled", "cancelled") ∷ []

unfoldable pub to_external : String → Option String
to_external internal_status = lookup internal_status mapping

unfoldable pub to_internal_set : String → Option (List String)
to_internal_set external_status = lookup external_status reverse_mapping

abbrev keys_of : String → List (String × String) → List String
keys_of external [] = []
keys_of external ((k, v) ∷ m) =
    let rest = keys_of external m in if str_eq v external then k ∷ rest else rest

unfoldable pub to_job_states : String → Option (List String)
to_job_states external_status = elim (lookup external_status reverse_mapping) [
  | none ↦ none
  | some _ ↦ some (keys_of external_status job_state_mapping)
]

unfoldable pub to_external_job_status : String → Option String → Option String
unfolding to_external
to_external_job_status job_state none = lookup job_state job_state_mapping
to_external_job_status job_state (some status) = to_external status
