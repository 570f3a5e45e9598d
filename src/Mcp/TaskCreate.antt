-- ===== src/Mcp/TaskCreate.antt =====
-- `_handle_task_create` of app/mcp/server.py: the checks of a creation in their order, then the
-- creation in its own transaction. The sessions of the checks and of the creation see the same tables.
-- `depth` is the queue depth, `now` the clock, `stamp` that of the database, `draw` numbers the
-- encryptions.
use task_scheduler_mcp.Secrets.LiteralDetection.{detect_literal_secret}
use task_scheduler_mcp.Secrets.Json.{Value}
use task_scheduler_mcp.Connections.Store.{Rows, ConnectionStore}
use task_scheduler_mcp.Store.{is_none, Job, Db}
use task_scheduler_mcp.Store.Session.{begin, ok, err, Result}
use task_scheduler_mcp.Limits.Containment.{
  check_containment, ContainmentLimits, ContainmentDecision,
}
use task_scheduler_mcp.Connections.Preflight.{proceeds, check_oauth_connection, OauthCheck}
use task_scheduler_mcp.Jobs.Create.{create_job, NewJob, Environment}
use task_scheduler_mcp.Limits.RateLimit.{RateLimitDecision, check_rate_limit, RateLimits}
pub mod Answers
pub mod Refusal
use task_scheduler_mcp.Mcp.Envelope.{
  success, failure, error, Envelope, ErrorBody, Code, retry_error, map_domain_error,
}
use task_scheduler_mcp.Common.{
  ℕ, zero, suc, ◌+◌, ◌-◌, ◌*◌, ◌/◌, ◌%◌, ◌≤◌, ◌<◌, String, ◌≡◌, refl, ◌∙◌, ◌≢◌, ◌↔◌, ◌⊎◌, inl, inr,
  Bool, true, false, not, ◌&&◌, ◌||◌, Option, none, some, List, [], ◌∷◌, ◌++◌, str_eq, leb, ◌==◌,
  if◌then◌else◌,
}

pub record Settings : Type 0 where
  pub overload_backpressure_queue_depth : ℕ
  pub overload_retry_after_seconds : ℕ
  pub rate_limits : RateLimits
  pub containment_limits : ContainmentLimits
  pub operator_user_id : Option String
  pub mcp_user_tz : Option String

-- What a creation reads besides the tables: the registry's `required_provider` of an action is `none`
-- where the action needs no OAuth connection, `store` is `none` where KMS is not configured.
pub record Server : Type 0 where
  pub settings : Settings
  pub env : Environment
  pub required_provider : String → Option String
  pub store : Option ConnectionStore
  pub connections : Rows
  -- `str.isalnum` outside ASCII, and `json.dumps`
  pub alnum : ℕ → Bool
  pub dumps : Value → String

-- `arguments["trigger_on_job_id"]`, as `int` reads it; a negative number is given without its sign.
pub data IntArg : Type 0 where
  absent not_integer : IntArg
  integer negative : ℕ → IntArg

pub record TaskArguments : Type 0 where
  pub action : String
  pub action_params : Value
  pub schedule_type : Option String
  pub scheduled_at : Option String
  pub idempotency_key : Option String
  pub timezone : Option String
  pub cron_expr : Option String
  pub trigger_on_job_id : IntArg
  pub trigger_on_status : Option String

-- `value or None`
abbrev pub or_none : Option String → Option String
or_none none = none
or_none (some s) = if str_eq s "" then none else some s

-- `bool(settings.operator_user_id) and user_id == settings.operator_user_id`
abbrev pub is_operator : Settings → String → Bool
is_operator settings user_id = elim (or_none settings.operator_user_id) [
  | none ↦ false
  | some operator ↦ str_eq user_id operator
]

-- The checks on the user, which the operator skips: the first that fails gives the error.
abbrev oauth_error : OauthCheck → Option ErrorBody
oauth_error proceeds = none
oauth_error OauthCheck.missing_connection =
    some (record (error Code.missing_connection none) { has_connect_url = true })

abbrev pub containment_error : ContainmentDecision → Option ErrorBody → Option ErrorBody
containment_error ContainmentDecision.allow next = next
containment_error (ContainmentDecision.reject reason seconds) next =
    some (retry_error Code.user_input "user_id" seconds)

abbrev pub rate_limit_error : Result RateLimitDecision → Option ErrorBody → Option ErrorBody
rate_limit_error (err e) next = some (map_domain_error e)
rate_limit_error (ok RateLimitDecision.allow) next = next
rate_limit_error (ok (RateLimitDecision.reject reason seconds)) next =
    some (retry_error Code.user_input "user_id" seconds)

unfoldable pub check_user : Server → ℕ → ℕ → String → String → List Job → Option ErrorBody
unfolding check_rate_limit check_containment check_oauth_connection map_domain_error
check_user server draw now user_id action jobs =
    if is_operator server.settings user_id
    then none
    else rate_limit_error (check_rate_limit user_id jobs server.settings.rate_limits now) (
        containment_error (check_containment user_id jobs server.settings.containment_limits false)
          (oauth_error (
            check_oauth_connection server.store draw now (server.required_provider action) user_id
              server.connections)))

-- The keyword arguments of the call of `create_job`.
abbrev pub new_job_of : Server → String → Option String → TaskArguments → Option ℕ → NewJob
new_job_of server user_id tz_header arguments trigger_on_job_id = record {
  user_id = user_id;
  action = arguments.action;
  action_params = server.dumps arguments.action_params;
  schedule_type = elim arguments.schedule_type [ none ↦ "immediate" | some t ↦ t ];
  idempotency_key = arguments.idempotency_key;
  scheduled_at = arguments.scheduled_at;
  timezone = or_none arguments.timezone;
  cron_expr = or_none arguments.cron_expr;
  tz_header = tz_header;
  tz_env = server.settings.mcp_user_tz;
  trigger_on_job_id = trigger_on_job_id;
  trigger_on_status = arguments.trigger_on_status;
  operator_user_id = server.settings.operator_user_id;
}

-- `success({"job_id": …})`, or the envelope of what was raised.
abbrev pub answer : Result Job × Db → Envelope ℕ × Db
answer (ok job, db) = (success job.job_id, db)
answer (err e, db) = (failure (map_domain_error e), db)

abbrev pub create_or_refuse : Server → ℕ → ℕ → NewJob → Option ErrorBody → Db → Envelope ℕ × Db
unfolding create_job map_domain_error
create_or_refuse server now stamp args (some body) db = (failure body, db)
create_or_refuse server now stamp args none db =
    answer (begin (create_job server.env now stamp args) db)

abbrev pub with_trigger :
    Server → ℕ → ℕ → ℕ → String → Option String → TaskArguments → Option ℕ → Db → Envelope ℕ × Db
unfolding check_user create_or_refuse
with_trigger server draw now stamp user_id tz_header arguments trigger_on_job_id db =
    create_or_refuse server now stamp
      (new_job_of server user_id tz_header arguments trigger_on_job_id)
      (check_user server draw now user_id arguments.action db.jobs) db

-- A negative id is found like this one: no job has it.
abbrev pub unused_id : Db → ℕ
unused_id db = db.next_job_id

abbrev pub by_trigger :
    Server → ℕ → ℕ → ℕ → String → Option String → TaskArguments → IntArg → Db → Envelope ℕ × Db
unfolding with_trigger
by_trigger server draw now stamp user_id tz_header arguments absent db =
    with_trigger server draw now stamp user_id tz_header arguments none db
by_trigger server draw now stamp user_id tz_header arguments not_integer db =
    (failure (error Code.user_input (some "trigger_on_job_id")), db)
by_trigger server draw now stamp user_id tz_header arguments (integer trigger) db =
    with_trigger server draw now stamp user_id tz_header arguments (some trigger) db
by_trigger server draw now stamp user_id tz_header arguments (negative n) db =
    with_trigger server draw now stamp user_id tz_header arguments (some (unused_id db)) db

unfoldable pub handle_task_create :
    Server → ℕ → ℕ → ℕ → ℕ → String → Option String → TaskArguments → Db → Envelope ℕ × Db
unfolding by_trigger detect_literal_secret
handle_task_create server draw now stamp depth user_id tz_header arguments db =
    if not (is_none (detect_literal_secret server.alnum arguments.action_params))
    then (failure (error Code.user_input (some "action_params")), db)
    else if leb server.settings.overload_backpressure_queue_depth depth
    then (
      failure (
          retry_error Code.invalid_state "queue_depth"
            server.settings.overload_retry_after_seconds),
      db,
    )
    else by_trigger server draw now stamp user_id tz_header arguments arguments.trigger_on_job_id db
