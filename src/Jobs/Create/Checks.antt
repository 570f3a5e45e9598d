-- ===== src/Jobs/Create/Checks.antt =====
-- The checks of `create_job` write nothing.
use task_scheduler_mcp.Materializer.{zone_unreadable, zone_found, zone_missing, zone_malformed}
use task_scheduler_mcp.Config.Timezone.{resolve_timezone}
use task_scheduler_mcp.Config.Cron.{validate_cron_expr}
use task_scheduler_mcp.Store.{is_active, is_none}
use task_scheduler_mcp.Materializer.{ZoneLookup, next_after, Calendar}
use task_scheduler_mcp.Chain.{
  max_depth, max_chain_depth, has_cycle, ancestors, is_truthy, validate_run_source, validate_chain,
}
use task_scheduler_mcp.Jobs.Create.{
  is_bad_trigger_status, is_not, utc_of_iso, err, check_chain, is_supported, plan_immediate,
  or_default, ok, NewJob, Environment, parse_and_normalise_scheduled_at, lift, check_arguments,
  plan_schedule, plan_one_shot, plan_recurring, validate_iana_timezone,
}
use task_scheduler_mcp.Store.Session.{
  os_error, invalid_timezone, raise, chain_depth, chain_cycle, chain_run_source,
  chain_job_terminated, value_error, cron_error, chain_job_not_found, operator_only_action,
  find_job, pure, unsupported_schedule_type, invalid_scheduled_at, invalid_cron_expr, raise_if,
  Result, Error,
}
use task_scheduler_mcp.Store.Ensures.{ReadsOnly}
use task_scheduler_mcp.Store.Keeps.{
  Keeps, Keeps-bind, Keeps-pure, Keeps-raise, Keeps-or_raise, Keeps-gets, Keeps-if,
}
use task_scheduler_mcp.Common.{
  ℕ, ◌-◌, String, Bool, true, false, not, ◌&&◌, Option, none, some, str_eq, leb,
}

ReadsOnly-raise_if : (b : Bool) (e : Error) → ReadsOnly (raise_if b e)
ReadsOnly-raise_if true e P = record { at = λ db h. tt }
ReadsOnly-raise_if false e P = record { at = λ db h. h }

ReadsOnly-lift : {A : Type 0} (r : Result A) → ReadsOnly (lift r)
ReadsOnly-lift (ok a) P = Keeps-pure a
ReadsOnly-lift (err e) P = Keeps-raise e

ReadsOnly-zone :
    (calendar : Calendar) (tz : String) → ReadsOnly (validate_iana_timezone calendar tz)
unfolding validate_iana_timezone
ReadsOnly-zone calendar tz P = by_zone (calendar.zone tz)
  where
    by_zone :
        (z : ZoneLookup)
        → Keeps P (elim z [
          | zone_found ↦ pure tt
          | zone_missing ↦ raise invalid_timezone
          | zone_unreadable ↦ raise os_error
          | zone_malformed ↦ raise value_error
        ])
    by_zone zone_found = Keeps-pure tt
    by_zone zone_missing = Keeps-raise invalid_timezone
    by_zone zone_unreadable = Keeps-raise os_error
    by_zone zone_malformed = Keeps-raise value_error

ReadsOnly-recurring :
    (env : Environment) (now : ℕ) (args : NewJob) → ReadsOnly (plan_recurring env now args)
unfolding plan_recurring next_after
ReadsOnly-recurring env now args P =
    Keeps-bind _ _ (ReadsOnly-raise_if (not (is_truthy args.cron_expr)) invalid_cron_expr P) λ _.
      Keeps-bind _ _ (Keeps-or_raise args.cron_expr invalid_cron_expr) λ expr.
        Keeps-bind _ _
          (ReadsOnly-raise_if (not (is_none (validate_cron_expr env.calendar expr)))
            invalid_cron_expr P)
          λ _.
            Keeps-bind _ _
              (ReadsOnly-lift
                (resolve_timezone env.calendar args.timezone args.tz_header args.tz_env) P)
              λ tz. Keeps-bind _ _ (ReadsOnly-zone env.calendar tz P) λ _.
                Keeps-bind _ _ (Keeps-or_raise (env.calendar.get_next expr tz (now - 1)) cron_error)
                  λ run_at. Keeps-pure _

ReadsOnly-one_shot :
    (env : Environment) (now : ℕ) (args : NewJob) → ReadsOnly (plan_one_shot env now args)
unfolding plan_one_shot parse_and_normalise_scheduled_at
ReadsOnly-one_shot env now args P =
    let tz = or_default args.timezone "UTC" in
    Keeps-bind _ _ (ReadsOnly-zone env.calendar tz P) λ _.
      Keeps-bind _ _
        (Keeps-bind _ _ (Keeps-or_raise args.scheduled_at invalid_scheduled_at) λ text.
          Keeps-bind _ _ (Keeps-or_raise (env.clock.from_iso text) invalid_scheduled_at) λ dt.
            Keeps-bind _ _
              (ReadsOnly-raise_if (leb (utc_of_iso env.clock tz dt) now) invalid_scheduled_at P)
              λ _. Keeps-pure (utc_of_iso env.clock tz dt))
        λ t. Keeps-pure _

ReadsOnly-plan :
    (env : Environment) (now : ℕ) (args : NewJob) → ReadsOnly (plan_schedule env now args)
unfolding plan_schedule
ReadsOnly-plan env now args P =
    Keeps-if (str_eq args.schedule_type "recurring") _ _ (ReadsOnly-recurring env now args P) (
      Keeps-if (str_eq args.schedule_type "one-shot") _ _ (ReadsOnly-one_shot env now args P)
        (Keeps-pure (plan_immediate now args)))

pub check_arguments-ReadsOnly :
    (env : Environment) (now : ℕ) (args : NewJob) → ReadsOnly (check_arguments env now args)
unfolding check_arguments validate_run_source
check_arguments-ReadsOnly env now args P =
    Keeps-bind _ _
      (ReadsOnly-raise_if (not (is_supported args.schedule_type)) unsupported_schedule_type P)
      λ _.
        Keeps-bind _ _ (Keeps-or_raise (env.registry args.action) Error.unknown_action) λ handler.
          Keeps-bind _ _
            (ReadsOnly-raise_if
              (handler.requires_operator && is_not args.user_id args.operator_user_id)
              operator_only_action P)
            λ _.
              Keeps-bind _ _
                (ReadsOnly-raise_if (is_bad_trigger_status args.trigger_on_status) value_error P)
                λ _.
                  Keeps-bind _ _
                    (ReadsOnly-raise_if
                      (not (is_none args.trigger_on_job_id) && is_truthy args.cron_expr)
                      chain_run_source P)
                    λ _. ReadsOnly-plan env now args P

pub check_chain-ReadsOnly : (args : NewJob) → ReadsOnly (check_chain args)
unfolding validate_chain
check_chain-ReadsOnly args P = by_trigger args.trigger_on_job_id
  where
    by_trigger :
        (t : Option ℕ)
        → Keeps P (elim t [ none ↦ pure tt | some trigger ↦ validate_chain args.user_id trigger ])
    by_trigger none = Keeps-pure tt
    by_trigger (some trigger) = Keeps-bind _ _ (Keeps-gets (find_job trigger)) λ found.
        Keeps-bind _ _ (Keeps-or_raise found chain_job_not_found) λ job.
          Keeps-bind _ _
            (ReadsOnly-raise_if (not (str_eq job.user_id args.user_id)) chain_job_not_found P)
            λ _.
              Keeps-bind _ _ (ReadsOnly-raise_if (not (is_active job.state)) chain_job_terminated P)
                λ _. Keeps-bind _ _ (Keeps-gets (ancestors trigger)) λ rows.
                  Keeps-bind _ _ (ReadsOnly-raise_if (has_cycle rows) chain_cycle P)
                    λ _. ReadsOnly-raise_if (leb max_chain_depth (max_depth rows)) chain_depth P
