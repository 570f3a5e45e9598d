-- ===== src/Jobs/Create/Liveness.antt =====
-- The creation of a job that runs at once, by `create_job` of app/domain/jobs.py.
use task_scheduler_mcp.Materializer.Spawning.{spawn_run_lem}
use task_scheduler_mcp.Jobs.Create.Outcome.{with_job}
use task_scheduler_mcp.Store.Session.{ok, add_event, ◌>>=◌, ◌>>◌}
use task_scheduler_mcp.Chain.{validate_run_source}
use task_scheduler_mcp.Workers.Executor.{Handler}
use task_scheduler_mcp.Materializer.{
  same_cause, same_nonterminal, new_run, spawn_run, materialize_initial,
}
use task_scheduler_mcp.Jobs.Create.{
  plan_immediate, new_job, find_existing, Environment, insert_job, create_job, NewJob,
  check_arguments, check_chain, first_run, create_new, plan_schedule,
}
use task_scheduler_mcp.Store.{
  JobState, JobType, executes, EventType, RunStatus, Db, DateTime, Job, JobRun,
}
use task_scheduler_mcp.Common.{
  ℕ, ◌+◌, ◌<◌, String, ◌≡◌, refl, ◌∙◌, Bool, false, Option, none, some, List, [], ◌∷◌, arith,
  exists, All,
}

-- No row of a job that is not there yet.
exists-fresh :
    (j : ℕ) (p : JobRun → Bool) (runs : List JobRun)
    → ((r : JobRun) → r.job_id < j → p r ≡ false)
    → All (λ (r : JobRun). r.job_id < j) runs
    → exists p runs ≡ false
exists-fresh j p [] apart below = refl
exists-fresh j p (r ∷ rs) apart below = rw (apart r below.0) (exists-fresh j p rs apart below.1)

-- The arguments of a job that runs at once.
abbrev pub immediate : String → String → String → Option String → Option String → NewJob
immediate user_id action action_params idempotency_key operator_user_id = record {
  user_id = user_id;
  action = action;
  action_params = action_params;
  schedule_type = "immediate";
  idempotency_key = idempotency_key;
  scheduled_at = none;
  timezone = none;
  cron_expr = none;
  tz_header = none;
  tz_env = none;
  trigger_on_job_id = none;
  trigger_on_status = none;
  operator_user_id = operator_user_id;
}

-- A run can be spawned for a job that no run is of.
spawned :
    (stamp : ℕ) (job : Job) (run_at : DateTime) (db : Db)
    → All (λ (r : JobRun). r.job_id < job.job_id) db.runs
    → (after : Db) × (spawn_run stamp job run_at RunStatus.pending none db
        ≡ ok (new_run stamp db.next_run_id job run_at RunStatus.pending none, after))
      × (after.jobs ≡ db.jobs)
      × (after.runs ≡ new_run stamp db.next_run_id job run_at RunStatus.pending none ∷ db.runs)
spawned stamp job run_at db below =
    let new = new_run stamp db.next_run_id job run_at RunStatus.pending none in
    let idle =
      exists-fresh job.job_id (executes job.job_id) db.runs (λ r h. ground (arith, h)) below in
    let single =
      exists-fresh job.job_id (same_nonterminal new) db.runs (λ r h. ground (arith, h)) below in
    let alone =
      exists-fresh job.job_id (same_cause none new) db.runs (λ r h. ground (arith, h)) below in
    let after =
      add_event stamp db.next_run_id job.job_id EventType.created none (some RunStatus.pending) none
        (record db { runs = new ∷ db.runs; next_run_id = db.next_run_id + 1 }) in
    (
      after,
      spawn_run_lem stamp job run_at RunStatus.pending none db ∙ rw (idle, single, alone) refl,
      refl,
      refl,
    )

-- The active job of the user with the arguments, and its one run, due at once.
pub record Starts (args : NewJob) (now : ℕ) (before : Db) (job : Job) (after : Db) : Type 0 where
  pub jobs : after.jobs ≡ job ∷ before.jobs
  pub job_id : job.job_id ≡ before.next_job_id
  pub owner : job.user_id ≡ args.user_id
  pub action : job.action ≡ args.action
  pub action_params : job.action_params ≡ args.action_params
  pub key : job.idempotency_key ≡ args.idempotency_key
  pub state : job.state ≡ JobState.active
  pub job_type : job.job_type ≡ JobType.one_shot
  pub scheduled_at : job.scheduled_at ≡ some now
  pub timezone : job.timezone ≡ "UTC"
  pub cron_expr : job.cron_expr ≡ none
  pub trigger : job.trigger_on_job_id ≡ none
  pub run : JobRun
  pub runs : after.runs ≡ run ∷ before.runs
  pub of_job : run.job_id ≡ job.job_id
  pub of_user : run.user_id ≡ args.user_id
  pub status : run.status ≡ RunStatus.pending
  pub due : run.scheduled_at ≡ now
  pub cause : run.wait_for_run_id ≡ none

-- The transaction of such a job, whose key is free.
created :
    (now stamp : ℕ) (user_id action action_params : String) (key operator : Option String) (db : Db)
    → let args = immediate user_id action action_params key operator in
      find_existing args db ≡ none
      → All (λ (r : JobRun). r.job_id < db.next_job_id) db.runs
      → (job : Job) × (after : Db) × (create_new stamp args (plan_immediate now args) db
          ≡ ok (job, after))
        × Starts args now db job after
unfolding create_new insert_job materialize_initial
created now stamp user_id action action_params key operator db free below =
    let args = immediate user_id action action_params key operator in
    let plan = plan_immediate now args in
    let job = new_job stamp db.next_job_id args plan in
    let run = spawned stamp job plan.run_at (with_job stamp args plan job db) below in
    (
      job,
      run.0,
      rw
          (
            check_chain, ◌>>=◌, ◌>>◌, insert_job, free, first_run, materialize_initial, ◌>>=◌, ◌>>◌,
            run.1,
          )
          refl,
      record {
        jobs = run.2;
        job_id = refl;
        owner = refl;
        action = refl;
        action_params = refl;
        key = refl;
        state = refl;
        job_type = refl;
        scheduled_at = refl;
        timezone = refl;
        cron_expr = refl;
        trigger = refl;
        run = new_run stamp db.next_run_id job plan.run_at RunStatus.pending none;
        runs = run.3;
        of_job = refl;
        of_user = refl;
        status = refl;
        due = refl;
        cause = refl;
      },
    )

-- The creation of a job with schedule type immediate, and without a time zone, a scheduled instant,
-- a cron expression, a trigger or a trigger status, always returns, where the action is registered
-- and open to all users, no job has its idempotency key, and every run is of a job below the next
-- id: a new active one-shot job stands in front of the jobs, with the next id, the user, action,
-- params and key of the arguments, in UTC, scheduled for now, and with one PENDING run, due now and
-- without a cause.
pub create_job-immediate :
    (env : Environment) (now stamp : ℕ) (user_id action action_params : String)
    (key operator : Option String) (handler : Handler) (db : Db)
    → env.registry action ≡ some handler
    → handler.requires_operator ≡ false
    → find_existing (immediate user_id action action_params key operator) db ≡ none
    → All (λ (r : JobRun). r.job_id < db.next_job_id) db.runs
    → let args = immediate user_id action action_params key operator in
      (job : Job) × (after : Db) × (create_job env now stamp args db ≡ ok (job, after))
      × Starts args now db job after
unfolding create_job check_arguments create_new validate_run_source plan_schedule insert_job
    materialize_initial
create_job-immediate env now stamp user_id action action_params key operator handler db known
      open_to_all free below =
    let args = immediate user_id action action_params key operator in
    let done = created now stamp user_id action action_params key operator db free below in
    (done.0, done.1, rw (known, open_to_all, free) done.2, done.3)
