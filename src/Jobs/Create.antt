-- ===== src/Jobs/Create.antt =====
-- `create_job` of app/domain/jobs.py. `datetime.fromisoformat` and the offset of a zone are the
-- parameter `clock`; the registry answers the handler of an action. `now` is the instant that the
-- checks read, `stamp` the one that the database gives to the rows.
pub mod Checks
pub mod Keeping
pub mod Liveness
pub mod Outcome
pub mod Retry
use task_scheduler_mcp.Store.{
  on_any, JobState, on_failed, JobType, unknown_action, on_succeeded, Db, Job, is_none,
  TriggerStatus, DateTime,
}
use task_scheduler_mcp.Config.Cron.{validate_cron_expr}
use task_scheduler_mcp.Config.Timezone.{resolve_timezone}
use task_scheduler_mcp.Chain.{validate_run_source, validate_chain, is_truthy}
use task_scheduler_mcp.Materializer.{
  zone_unreadable, Calendar, zone_found, zone_missing, zone_malformed, next_after,
  materialize_initial,
}
use task_scheduler_mcp.Workers.Executor.{Registry, Handler}
use task_scheduler_mcp.Store.Session.{
  os_error, Error, operator_only_action, integrity_error, value_error, unsupported_schedule_type,
  invalid_cron_expr, invalid_scheduled_at, invalid_timezone, Session, pure, raise, raise_if,
  or_raise, gets, modify, ◌>>=◌, ◌>>◌, Result, ok, err,
}
use task_scheduler_mcp.Common.{
  ℕ, zero, suc, ◌+◌, ◌-◌, ◌*◌, ◌/◌, ◌%◌, ◌≤◌, ◌<◌, String, ◌≡◌, refl, ◌∙◌, ◌≢◌, ◌↔◌, ◌⊎◌, inl, inr,
  Bool, true, false, not, ◌&&◌, ◌||◌, Option, none, some, [], ◌∷◌, ◌++◌, str_eq, leb, ◌==◌,
  if◌then◌else◌, head?, select,
}

-- What `datetime.fromisoformat` answers: an aware datetime, or a naive one.
pub data IsoTime : Type 0 where
  aware : (utc : ℕ) → IsoTime
  naive : (wall : ℕ) → IsoTime

pub record Clock : Type 0 where
  -- `none` where it raises
  pub from_iso : String → Option IsoTime
  -- `dt.replace(tzinfo=tz).astimezone(UTC)`
  pub to_utc : String → ℕ → ℕ

pub record Environment : Type 0 where
  pub calendar : Calendar
  pub clock : Clock
  pub registry : Registry

-- The keyword arguments of `create_job`.
pub record NewJob : Type 0 where
  pub user_id : String
  pub action : String
  pub action_params : String
  pub schedule_type : String
  pub idempotency_key : Option String
  pub scheduled_at : Option String
  pub timezone : Option String
  pub cron_expr : Option String
  pub tz_header : Option String
  pub tz_env : Option String
  pub trigger_on_job_id : Option ℕ
  pub trigger_on_status : Option String
  pub operator_user_id : Option String

-- `run_at`, `resolved_tz` and `cron_expr` as the branches on the schedule's type leave them.
pub record Plan : Type 0 where
  pub run_at : DateTime
  pub timezone : String
  pub cron_expr : Option String

-- `value or default` of an optional text.
abbrev pub or_default : Option String → String → String
or_default none d = d
or_default (some s) d = if str_eq s "" then d else s

-- `user_id != operator_user_id`
abbrev pub is_not : String → Option String → Bool
is_not user_id none = true
is_not user_id (some operator) = not (str_eq user_id operator)

abbrev pub lift : {A : Type 0} → Result A → Session A
lift (ok a) = pure a
lift (err e) = raise e

unfoldable pub validate_iana_timezone : Calendar → String → Session (Unit {0})
validate_iana_timezone calendar tz = elim (calendar.zone tz) [
  | zone_found ↦ pure tt
  | zone_missing ↦ raise invalid_timezone
  | zone_unreadable ↦ raise os_error
  | zone_malformed ↦ raise value_error
]

abbrev pub utc_of_iso : Clock → String → IsoTime → ℕ
utc_of_iso clock tz (aware utc) = utc
utc_of_iso clock tz (naive wall) = clock.to_utc tz wall

-- `_parse_and_normalise_scheduled_at`
unfoldable pub parse_and_normalise_scheduled_at : Clock → ℕ → Option String → String → Session ℕ
parse_and_normalise_scheduled_at clock now scheduled_at_str tz = do
  text ← or_raise scheduled_at_str invalid_scheduled_at
  dt ← or_raise (clock.from_iso text) invalid_scheduled_at
  raise_if (leb (utc_of_iso clock tz dt) now) invalid_scheduled_at
  pure (utc_of_iso clock tz dt)

unfoldable pub plan_recurring : Environment → ℕ → NewJob → Session Plan
unfolding validate_cron_expr resolve_timezone validate_iana_timezone next_after
plan_recurring env now args = do
  raise_if (not (is_truthy args.cron_expr)) invalid_cron_expr
  cron_expr ← or_raise args.cron_expr invalid_cron_expr
  raise_if (not (is_none (validate_cron_expr env.calendar cron_expr))) invalid_cron_expr
  resolved_tz ← lift (resolve_timezone env.calendar args.timezone args.tz_header args.tz_env)
  validate_iana_timezone env.calendar resolved_tz
  run_at ← next_after env.calendar cron_expr resolved_tz now
  pure (record { run_at = run_at; timezone = resolved_tz; cron_expr = some cron_expr })

unfoldable pub plan_one_shot : Environment → ℕ → NewJob → Session Plan
unfolding validate_iana_timezone parse_and_normalise_scheduled_at
plan_one_shot env now args = do
  let tz = or_default args.timezone "UTC"
  validate_iana_timezone env.calendar tz
  t ← parse_and_normalise_scheduled_at env.clock now args.scheduled_at tz
  pure (record { run_at = record { utc = t; wall = t }; timezone = tz; cron_expr = none })

abbrev pub plan_immediate : ℕ → NewJob → Plan
plan_immediate now args = record {
  run_at = record { utc = now; wall = now };
  timezone = or_default args.timezone "UTC";
  cron_expr = none;
}

unfoldable pub plan_schedule : Environment → ℕ → NewJob → Session Plan
unfolding plan_recurring plan_one_shot
plan_schedule env now args =
    if str_eq args.schedule_type "recurring"
    then plan_recurring env now args
    else if str_eq args.schedule_type "one-shot"
    then plan_one_shot env now args
    else pure (plan_immediate now args)

-- `_SUPPORTED_SCHEDULE_TYPES` and `_VALID_TRIGGER_ON_STATUS`
abbrev pub is_supported : String → Bool
is_supported t = str_eq t "immediate" || (str_eq t "one-shot" || str_eq t "recurring")

abbrev trigger_status : String → Option TriggerStatus
trigger_status s =
    if str_eq s "SUCCEEDED"
    then some on_succeeded
    else if str_eq s "FAILED"
    then some on_failed
    else if str_eq s "ANY"
    then some on_any
    else none

abbrev pub is_bad_trigger_status : Option String → Bool
is_bad_trigger_status none = false
is_bad_trigger_status (some s) = is_none (trigger_status s)

-- `trigger_on_status or "SUCCEEDED"`, of a status that passed the check.
abbrev effective_trigger_status : Option String → Option TriggerStatus
effective_trigger_status none = some on_succeeded
effective_trigger_status (some s) = trigger_status s

-- The checks that need no database, in their order, and the plan.
unfoldable pub check_arguments : Environment → ℕ → NewJob → Session Plan
unfolding validate_run_source plan_schedule
check_arguments env now args = do
  raise_if (not (is_supported args.schedule_type)) unsupported_schedule_type
  handler ← or_raise (env.registry args.action) Error.unknown_action
  raise_if (handler.requires_operator && is_not args.user_id args.operator_user_id)
      operator_only_action
  raise_if (is_bad_trigger_status args.trigger_on_status) value_error
  validate_run_source args.trigger_on_job_id args.cron_expr
  plan_schedule env now args

-- `Job.idempotency_key == key` of a nullable column.
abbrev pub is_some_text : Option String → String → Bool
is_some_text none s = false
is_some_text (some t) s = str_eq t s

abbrev pub has_key : String → String → Job → Bool
has_key user_id key j = is_some_text j.idempotency_key key && str_eq j.user_id user_id

unfoldable pub find_existing : NewJob → Db → Option Job
find_existing args db = elim args.idempotency_key [
  | none ↦ none
  | some key ↦ head? (select (has_key args.user_id key) db.jobs)
]

abbrev pub new_job : ℕ → ℕ → NewJob → Plan → Job
new_job stamp job_id args plan =
    let recurs = str_eq args.schedule_type "recurring" in
    record {
      job_id = job_id;
      user_id = args.user_id;
      description = args.action;
      action = args.action;
      action_params = args.action_params;
      job_type = if recurs then JobType.recurring else JobType.one_shot;
      scheduled_at = if recurs then none else some plan.run_at.utc;
      cron_expr = plan.cron_expr;
      timezone = plan.timezone;
      cancelled_at = none;
      trigger_on_job_id = args.trigger_on_job_id;
      trigger_on_status =
          if is_none args.trigger_on_job_id
          then none
          else effective_trigger_status args.trigger_on_status;
      idempotency_key = args.idempotency_key;
      state = JobState.active;
      created_at = stamp;
      updated_at = stamp;
    }

-- `session.add(job)` and `flush()`, with the constraint on (user_id, idempotency_key).
unfoldable pub insert_job : NewJob → Job → Session (Unit {0})
insert_job args job db =
    if is_none (find_existing args db)
    then ok (tt, record db { jobs = job ∷ db.jobs; next_job_id = db.next_job_id + 1 })
    else err integrity_error

abbrev pub check_chain : NewJob → Session (Unit {0})
unfolding validate_chain
check_chain args = elim args.trigger_on_job_id [
  | none ↦ pure tt
  | some trigger ↦ validate_chain args.user_id trigger
]

-- A chained job has no run until its trigger's run ends.
abbrev pub first_run : ℕ → NewJob → Plan → Job → Session (Unit {0})
unfolding materialize_initial
first_run stamp args plan job = elim args.trigger_on_job_id [
  | none ↦ materialize_initial stamp job plan.run_at >>= λ _. pure tt
  | some trigger ↦ pure tt
]

-- The transaction, when no job has the key.
unfoldable pub create_new : ℕ → NewJob → Plan → Session Job
unfolding validate_chain insert_job materialize_initial
create_new stamp args plan = do
  check_chain args
  job_id ← gets (λ db. db.next_job_id)
  let job = new_job stamp job_id args plan
  insert_job args job
  first_run stamp args plan job
  pure job

abbrev pub create_unless : ℕ → NewJob → Plan → Option Job → Session Job
unfolding create_new
create_unless stamp args plan (some existing) = pure existing
create_unless stamp args plan none = create_new stamp args plan

unfoldable pub create_job : Environment → ℕ → ℕ → NewJob → Session Job
unfolding check_arguments create_new
create_job env now stamp args = do
  plan ← check_arguments env now args
  existing ← gets (find_existing args)
  create_unless stamp args plan existing
