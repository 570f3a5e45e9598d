-- ===== src/Jobs/View.antt =====
-- The views that app/domain/jobs.py returns, and `get_job_with_runs`.
use task_scheduler_mcp.Store.{job_of, JobType, Message, Job, Db, JobRun, JobState, RunStatus}
use task_scheduler_mcp.Store.Session.{pure, job_not_found, or_raise, gets, ◌>>=◌, Session}
use mathlib.Core.Option
use task_scheduler_mcp.Common.{
  ℕ, String, Bool, ◌&&◌, Option, none, some, List, map, str_eq, leb, ◌==◌, if◌then◌else◌, take,
  head?, select, order_by,
}

pub record RunView : Type 0 where
  pub run_id : ℕ
  pub status : RunStatus
  pub scheduled_at : ℕ
  pub start_at : Option ℕ
  pub finish_at : Option ℕ
  pub error_code : Option String
  pub error_message : Option Message

pub record JobView : Type 0 where
  pub job_id : ℕ
  pub action : String
  pub job_state : JobState
  pub latest_run_status : Option RunStatus
  pub runs : Option (List RunView)
  pub description : Option String
  pub job_type : Option JobType
  pub created_at : Option ℕ
  pub triggered_by : Option ℕ
  pub error_code : Option String
  pub error_message : Option Message

-- `func.coalesce(JobRun.start_at, JobRun.scheduled_at)`
abbrev sort_key : JobRun → ℕ
sort_key r = elim r.start_at [ none ↦ r.scheduled_at | some t ↦ t ]

-- `select(JobRun).where(job_id).order_by(sort_key.desc())`
unfoldable pub newest_runs : ℕ → Db → List JobRun
newest_runs job_id db =
    order_by (λ (a b : JobRun). leb (sort_key b) (sort_key a))
      (select (λ (r : JobRun). r.job_id == job_id) db.runs)

abbrev run_view : JobRun → RunView
run_view r = record {
  run_id = r.run_id;
  status = r.status;
  scheduled_at = r.scheduled_at;
  start_at = r.start_at;
  finish_at = r.finish_at;
  error_code = r.error_code;
  error_message = r.error_message;
}

abbrev pub is_own_job : String → ℕ → Job → Bool
is_own_job user_id job_id j = job_of job_id j && str_eq j.user_id user_id

-- `select(Job).where(Job.job_id == job_id, Job.user_id == user_id)`
abbrev pub find_own_job : String → ℕ → Db → Option Job
find_own_job user_id job_id db = head? (select (is_own_job user_id job_id) db.jobs)

abbrev view_of : Job → List JobRun → Bool → JobView
view_of job db_runs include_runs = record {
  job_id = job.job_id;
  action = job.action;
  job_state = job.state;
  latest_run_status = Option.map (λ (r : JobRun). r.status) (head? db_runs);
  runs = if include_runs then some (map run_view db_runs) else none;
  description = some job.description;
  job_type = some job.job_type;
  created_at = some job.created_at;
  triggered_by = job.trigger_on_job_id;
  error_code = Option.bind (head? db_runs) (λ (r : JobRun). r.error_code);
  error_message = Option.bind (head? db_runs) (λ (r : JobRun). r.error_message);
}

unfoldable pub get_job_with_runs : String → ℕ → Bool → ℕ → Session JobView
unfolding newest_runs
get_job_with_runs user_id job_id include_runs run_limit = do
  found ← gets (find_own_job user_id job_id)
  job ← or_raise found job_not_found
  db_runs ← gets (λ db. take (if include_runs then run_limit else 1) (newest_runs job_id db))
  pure (view_of job db_runs include_runs)
