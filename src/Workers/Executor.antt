-- ===== src/Workers/Executor.antt =====
-- app/workers/executor.py: claim, dispatch, terminal write. What the program does not implement is
-- passed in: the registry of actions, with what each action answers, and what other sessions commit
-- while an action runs. Log lines are left out.
use task_scheduler_mcp.Jobs.Settle.{settle_job}
use task_scheduler_mcp.Store.{
  unknown_action, params_error, action_raised, Job, invalid_params, action_timed_out, EventData,
  payload, text, run_of, Message, EventType, Db, RunStatus, JobRun,
}
pub mod Claim
pub mod Invariant
pub mod Delivery
pub mod Late
use task_scheduler_mcp.Store.Session.{update_runs, add_event, find_job, find_run}
use mathlib.Core.Option
use task_scheduler_mcp.Common.{
  ℕ, zero, suc, ◌+◌, ◌-◌, ◌*◌, ◌/◌, ◌%◌, ◌≤◌, ◌<◌, String, ◌≡◌, refl, ◌∙◌, ◌≢◌, ◌↔◌, ◌⊎◌, inl, inr,
  Bool, true, false, not, ◌&&◌, ◌||◌, Option, none, some, [], ◌∷◌, ◌++◌, map, str_eq, ◌==◌,
  if◌then◌else◌, exists,
}

-- app/actions/base.py; a JSON result is its text.
pub record ActionResult : Type 0 where
  pub ok : Bool
  pub result : Option String
  pub error : Option String
  pub error_code : Option String
  pub retryable : Bool

-- A validated `params_model`: `from_run_id` is `none` where the model has no such field.
pub record Params : Type 0 where
  pub document : String
  pub from_run_id : Option (Option ℕ)

-- `model_validate` answers or raises.
pub data Validation : Type 0 where
  valid : Params → Validation
  invalid : String → Validation

-- `await asyncio.wait_for(handler.execute(run, params), timeout)`
pub data Outcome : Type 0 where
  returned : ActionResult → Outcome
  timed_out : Outcome
  raised : String → Outcome

pub record Handler : Type 0 where
  pub timeout_seconds : ℕ
  pub requires_operator : Bool
  pub idempotent : Bool
  pub validate : String → Validation
  pub execute : JobRun → Params → Outcome

abbrev pub Registry : Type 0
Registry = String → Option Handler

abbrev pub is_claimable : RunStatus → Bool
is_claimable RunStatus.pending = true
is_claimable RunStatus.queued = true
is_claimable RunStatus.retrying = true
is_claimable _ = false

abbrev pub claimable : ℕ → JobRun → Bool
claimable run_id r = run_of run_id r && is_claimable r.status

abbrev pub start_run : ℕ → JobRun → JobRun
start_run now r = record r {
  status = RunStatus.running;
  start_at = some now;
  updated_at = now;
  heartbeat_at = some now;
}

abbrev pub status_or_queued : Option JobRun → RunStatus
status_or_queued none = RunStatus.queued
status_or_queued (some r) = r.status

-- `_claim`
unfoldable pub claim : ℕ → ℕ → ℕ → Db → Bool × Db
claim now run_id job_id db =
    if exists (claimable run_id) db.runs
    then (
      true,
      add_event now run_id job_id EventType.started (some (status_or_queued (find_run run_id db)))
          (some RunStatus.running) none (update_runs (claimable run_id) (start_run now) db),
    )
    else (false, db)

pub data Terminal : Type 0 where
  success failure : Terminal

abbrev pub terminal_status : Terminal → RunStatus
terminal_status success = RunStatus.succeeded
terminal_status failure = RunStatus.failed

abbrev terminal_event : Terminal → EventType
terminal_event success = EventType.succeeded
terminal_event failure = EventType.failed

abbrev pub finish_run : ℕ → RunStatus → ActionResult → JobRun → JobRun
finish_run now status a r = record r {
  status = status;
  finish_at = some now;
  updated_at = now;
  result = a.result;
  error_message = Option.map text a.error;
  error_code = a.error_code;
}

-- `_write_terminal`
unfoldable pub write_terminal : ℕ → ℕ → ℕ → Terminal → ActionResult → Db → Db
unfolding settle_job
write_terminal now run_id job_id t a db =
    (settle_job now job_id (
      add_event now run_id job_id (terminal_event t) (some RunStatus.running)
        (some (terminal_status t)) (Option.map payload a.result)
        (update_runs (run_of run_id) (finish_run now (terminal_status t) a) db))).1

abbrev pub fail_run : ℕ → Message → JobRun → JobRun
fail_run now error_message r = record r {
  status = RunStatus.failed;
  finish_at = some now;
  updated_at = now;
  error_message = some error_message;
}

-- `_write_permanent_failure`
unfoldable pub write_permanent_failure : ℕ → ℕ → ℕ → Message → Option EventData → Db → Db
unfolding settle_job
write_permanent_failure now run_id job_id error_message event_data db =
    (settle_job now job_id (
      add_event now run_id job_id EventType.failed (some RunStatus.running) (some RunStatus.failed)
        event_data (update_runs (run_of run_id) (fail_run now error_message) db))).1

abbrev pub retry_run : ℕ → Message → JobRun → JobRun
retry_run now error_message r = record r {
  status = RunStatus.retrying;
  updated_at = now;
  error_message = some error_message;
}

-- `_write_retrying`
unfoldable pub write_retrying : ℕ → ℕ → ℕ → Message → Db → Db
write_retrying now run_id job_id error_message db =
    add_event now run_id job_id EventType.retry (some RunStatus.running) (some RunStatus.retrying)
      none (update_runs (run_of run_id) (retry_run now error_message) db)

-- `_bump_heartbeat_at`
unfoldable pub bump_heartbeat_at : ℕ → ℕ → Db → Db
bump_heartbeat_at now run_id db =
    update_runs (run_of run_id) (λ r. record r { heartbeat_at = some now }) db

-- A recurring chain's upstream run is put in where the params leave it open.
unfoldable pub wire_upstream : JobRun → Params → Params
wire_upstream run params = elim params.from_run_id [
  | none ↦ params
  | some given ↦ elim given [
    | some id ↦ params
    | none ↦ elim run.wait_for_run_id [
      | none ↦ params
      | some upstream ↦ record params { from_run_id = some (some upstream) }
    ]
  ]
]

-- The message is deleted, or left for its visibility to expire.
pub data Receipt : Type 0 where
  deleted left : Receipt

-- `action_result.error or "retryable failure"`
abbrev error_or : Option String → String
error_or none = "retryable failure"
error_or (some e) = if str_eq e "" then "retryable failure" else e

-- The write that follows the action's outcome, and what happens to the message.
unfoldable pub settle_outcome : ℕ → ℕ → ℕ → ℕ → Outcome → Db → Db × Receipt
unfolding write_retrying write_terminal
settle_outcome now timeout run_id job_id timed_out db =
    (write_retrying now run_id job_id (action_timed_out timeout) db, left)
settle_outcome now timeout run_id job_id (raised exc) db =
    (write_retrying now run_id job_id (action_raised exc) db, left)
settle_outcome now timeout run_id job_id (returned a) db =
    if a.ok
    then (write_terminal now run_id job_id success a db, deleted)
    else if not a.retryable
    then (write_terminal now run_id job_id failure a db, deleted)
    else (write_retrying now run_id job_id (text (error_or a.error)) db, left)

-- One delivery of a message: `now` at the claim, `later` at the write that ends it, and `meanwhile`
-- for the commits of other sessions between these.
module _ (registry : Registry) (meanwhile : Db → Db) (now later run_id job_id : ℕ) where
  unfoldable pub dispatch_params : Handler → Validation → JobRun → Db → Db × Receipt
  unfolding settle_outcome write_permanent_failure wire_upstream
  dispatch_params handler (invalid exc) run db = (
    write_permanent_failure later run_id job_id (invalid_params exc) (some (params_error exc)) db,
    deleted,
  )
  dispatch_params handler (valid params) run db =
      settle_outcome later handler.timeout_seconds run_id job_id
        (handler.execute run (wire_upstream run params)) (meanwhile db)

  unfoldable pub dispatch_handler : Option Handler → Job → JobRun → Db → Db × Receipt
  unfolding dispatch_params
  dispatch_handler none job run db =
      (write_permanent_failure later run_id job_id (unknown_action job.action) none db, deleted)
  dispatch_handler (some handler) job run db =
      dispatch_params handler (handler.validate job.action_params) run db

  unfoldable pub dispatch_loaded : Option Job → Option JobRun → Db → Db × Receipt
  unfolding dispatch_handler
  dispatch_loaded (some job) (some run) db = dispatch_handler (registry job.action) job run db
  dispatch_loaded _ _ db = (db, deleted)

  -- `_dispatch`
  unfoldable pub dispatch : Db → Db × Receipt
  unfolding claim dispatch_loaded
  dispatch db =
      let (claimed, db') = claim now run_id job_id db in
      if claimed
      then dispatch_loaded (find_job job_id db') (find_run run_id db') db'
      else (db', deleted)
