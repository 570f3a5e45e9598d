-- ===== src/Examples/Creating.antt =====
-- The theorems on a creation, applied: a user who is not the operator asks for an immediate job.
use task_scheduler_mcp.Mcp.TaskCreate.Refusal.{handle_task_create-secret}
use task_scheduler_mcp.Secrets.LiteralDetection.{check_string}
use task_scheduler_mcp.Secrets.Json.{object, array, item, end, field, string, empty}
use task_scheduler_mcp.Secrets.Walk.{texts_of, first_secret}
use task_scheduler_mcp.Jobs.Create.Retry.{create_job-again}
use task_scheduler_mcp.Store.Session.{ok}
use task_scheduler_mcp.Examples.{sample-IsWellFormed, registry, sample, echo_handler}
use task_scheduler_mcp.Jobs.Create.Liveness.{Starts, create_job-immediate, immediate}
use task_scheduler_mcp.Examples.Calendars.{hourly}
use task_scheduler_mcp.Store.{JobState, Job, Db}
use task_scheduler_mcp.Store.WellFormed.{IsWellFormed}
use task_scheduler_mcp.Mcp.TaskCreate.Answers.{
  handle_task_create-IsWellFormed, handle_task_create-Tells, handle_task_create-IsContained, Tells,
}
use task_scheduler_mcp.Limits.Containment.Caps.{IsContained}
use task_scheduler_mcp.Mcp.TaskCreate.{
  new_job_of, absent, handle_task_create, TaskArguments, Server,
}
use task_scheduler_mcp.Limits.Containment.{ContainmentLimits}
use task_scheduler_mcp.Jobs.Create.{
  find_existing, plan_immediate, create_job, new_job, NewJob, Environment, Clock,
}
use task_scheduler_mcp.Mcp.Envelope.{success, failure, error, Code}
use task_scheduler_mcp.Common.{inl, ◌∷◌, ◌≡◌, refl, false, none, some, [], arith}

abbrev clock : Clock
clock = record { from_iso = λ s. none; to_utc = λ tz wall. wall }

abbrev environment : Environment
environment = record { calendar = hourly; clock = clock; registry = registry }

abbrev limits : ContainmentLimits
limits = record {
  active_recurring_per_user = 5;
  active_total_per_user = 50;
  global_active_recurring = 500;
}

abbrev server : Server
server = record {
  settings = record {
    overload_backpressure_queue_depth = 500;
    overload_retry_after_seconds = 10;
    rate_limits = record { daily = 100; burst = 5 };
    containment_limits = limits;
    operator_user_id = some "root";
    mcp_user_tz = none;
  };
  env = environment;
  required_provider = λ action. none;
  store = none;
  connections = [];
  alnum = λ c. false;
  dumps = λ v. "{}";
}

abbrev arguments : TaskArguments
arguments = record {
  action = "echo";
  action_params = object (field "message" (string "hello") empty);
  schedule_type = none;
  scheduled_at = none;
  idempotency_key = some "k1";
  timezone = none;
  cron_expr = none;
  trigger_on_job_id = absent;
  trigger_on_status = none;
}

abbrev args : NewJob
args = new_job_of server "bob" none arguments none

sample-IsContained : IsContained limits sample.jobs
sample-IsContained = record {
  recurring = λ u. ground arith;
  total = λ u. ground arith;
  all_recurring = ground arith;
}

creates : (handle_task_create server 0 100 100 0 "bob" none arguments sample).0 ≡ success 4
unfolding handle_task_create find_existing
creates = refl

handle_task_create-IsContained_example :
    IsContained limits (handle_task_create server 0 100 100 0 "bob" none arguments sample).1.jobs
handle_task_create-IsContained_example =
    handle_task_create-IsContained server 0 100 100 0 "bob" none arguments sample refl
      sample-IsContained

handle_task_create-Tells_example :
    Tells args sample (handle_task_create server 0 100 100 0 "bob" none arguments sample)
handle_task_create-Tells_example =
    handle_task_create-Tells server 0 100 100 0 "bob" none arguments sample

handle_task_create-IsWellFormed_example :
    IsWellFormed (handle_task_create server 0 100 100 0 "bob" none arguments sample).1
handle_task_create-IsWellFormed_example =
    handle_task_create-IsWellFormed server 0 100 100 0 "bob" none arguments sample
      sample-IsWellFormed

-- The tables after the creation, and the plan of its immediate job.
abbrev created : Db
created = (handle_task_create server 0 100 100 0 "bob" none arguments sample).1

abbrev job : Job
job = new_job 100 4 args (plan_immediate 100 args)

-- By the retry the job has been completed.
abbrev completed : Job
completed = record job { state = JobState.completed }

abbrev seen : Db
seen = record created { jobs = completed ∷ sample.jobs }

create_job-again_example : create_job environment 200 200 args seen ≡ ok (completed, seen)
unfolding handle_task_create create_job find_existing
create_job-again_example =
    create_job-again environment 100 100 200 200 args "k1" sample created seen job completed
      (plan_immediate 200 args) refl refl
      (record { there = inl refl; same_id = refl; same_user = refl; same_key = refl })
      (ground arith) refl

abbrev at_once : NewJob
at_once = immediate "bob" "echo" "{}" (some "k1") (some "root")

create_job-immediate_example :
    (new : Job) × (after : Db) × (create_job environment 100 100 at_once sample ≡ ok (new, after))
    × Starts at_once 100 sample new after
unfolding find_existing
create_job-immediate_example =
    create_job-immediate environment 100 100 "bob" "echo" "{}" (some "k1") (some "root")
      echo_handler sample refl refl refl (ground arith)

-- A token in a list under a key.
abbrev leaking : TaskArguments
leaking = record arguments {
  action_params = object (field "headers" (array (item (string "Bearer ghp_abcdefgh1") end)) empty);
}

leaks : first_secret (λ c. false) (texts_of leaking.action_params) ≡ some "ghp_"
unfolding first_secret texts_of check_string
leaks = refl

handle_task_create-secret_example :
    handle_task_create server 0 100 100 0 "bob" none leaking sample
    ≡ (failure (error Code.user_input (some "action_params")), sample)
handle_task_create-secret_example =
    handle_task_create-secret server 0 100 100 0 "bob" none leaking sample "ghp_" leaks
