-- ===== src/Mcp/Envelope.antt =====
-- app/mcp/envelope.py and app/mcp/errors.py, less the wording of the messages.
use task_scheduler_mcp.Store.Session.{Error}
use task_scheduler_mcp.Common.{ℕ, String, Bool, false, Option, none, some}

pub data Code : Type 0 where
  user_input not_found invalid_state unknown_action duplicate internal missing_connection : Code

pub record ErrorBody : Type 0 where
  pub code : Code
  pub field : Option String
  -- `expected={"retry_after_seconds": …}`
  pub retry_after_seconds : Option ℕ
  -- whether `connect_url` is given
  pub has_connect_url : Bool

pub data Envelope {ℓ} (A : Type ℓ) : Type ℓ where
  success : A → Envelope A
  failure : ErrorBody → Envelope A

-- `error(code, …, field=field)`
abbrev pub error : Code → Option String → ErrorBody
error code field = record {
  code = code;
  field = field;
  retry_after_seconds = none;
  has_connect_url = false;
}

abbrev pub retry_error : Code → String → ℕ → ErrorBody
retry_error code field seconds = record (error code (some field)) {
  retry_after_seconds = some seconds;
}

-- An exception that the table does not name is INTERNAL; croniter's are ValueErrors.
unfoldable pub map_domain_error : Error → ErrorBody
map_domain_error Error.unknown_action = error Code.unknown_action (some "action")
map_domain_error Error.operator_only_action = error Code.invalid_state (some "action")
map_domain_error Error.unsupported_schedule_type = error Code.user_input (some "schedule_type")
map_domain_error Error.invalid_cron_expr = error Code.user_input (some "cron_expr")
map_domain_error Error.invalid_scheduled_at = error Code.user_input (some "scheduled_at")
map_domain_error Error.invalid_timezone = error Code.user_input (some "timezone")
map_domain_error Error.job_not_found = error Code.not_found none
map_domain_error (Error.invalid_state status) = error Code.invalid_state none
map_domain_error Error.chain_job_not_found = error Code.not_found (some "trigger_on_job_id")
map_domain_error Error.chain_job_terminated = error Code.invalid_state (some "trigger_on_job_id")
map_domain_error Error.chain_cycle = error Code.user_input (some "trigger_on_job_id")
map_domain_error Error.chain_depth = error Code.user_input (some "trigger_on_job_id")
map_domain_error Error.chain_run_source = error Code.user_input (some "trigger_on_job_id")
map_domain_error Error.value_error = error Code.user_input none
map_domain_error Error.cron_error = error Code.user_input none
map_domain_error _ = error Code.internal none
