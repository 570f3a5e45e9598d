-- ===== src/Mcp/Resources.antt =====
-- app/mcp/resources and `list_jobs_resource` of app/domain/jobs.py, less the instants that the
-- documents carry as texts. `excerpt` is the text of a message, cut at 200 characters.
use task_scheduler_mcp.Mcp.StatusMapping.{status_name, to_external}
use task_scheduler_mcp.Jobs.View.{find_own_job, is_own_job}
use task_scheduler_mcp.Jobs.Listing.{newest_first, latest_status}
use task_scheduler_mcp.Store.{
  EventType, hour, JobState, Message, JobRun, RunStatus, Db, Job, RunEvent, JobType,
}
pub mod Bounds
use mathlib.Core.Option
use task_scheduler_mcp.Mcp.TaskCreate.{or_none}
use task_scheduler_mcp.Common.{
  max, ℕ, zero, suc, ◌+◌, ◌-◌, ◌*◌, ◌/◌, ◌%◌, ◌≤◌, ◌<◌, String, ◌≡◌, refl, ◌∙◌, ◌≢◌, ◌↔◌, ◌⊎◌, inl,
  inr, Bool, true, false, not, ◌&&◌, ◌||◌, Option, none, some, List, [], ◌∷◌, ◌++◌, map, str_eq,
  leb, ◌==◌, if◌then◌else◌, take, select, exists, count, order_by,
}

pub record JobResourceItem : Type 0 where
  pub job_id : ℕ
  pub description : String
  pub job_type : JobType
  pub created_at : ℕ
  pub job_state : JobState
  pub latest_run_status : Option RunStatus
  pub cancelled_at : Option ℕ

-- `func.max(occurred_at)`: NULL over no events.
abbrev later_of : Option ℕ → ℕ → Option ℕ
later_of none t = some t
later_of (some s) t = some (max s t)

abbrev is_cancelled : EventType → Bool
is_cancelled EventType.cancelled = true
is_cancelled _ = false

abbrev is_cancelled_of : ℕ → RunEvent → Bool
is_cancelled_of job_id e = (e.job_id == job_id) && is_cancelled e.event_type

unfoldable latest_cancel : ℕ → List RunEvent → Option ℕ
latest_cancel job_id [] = none
latest_cancel job_id (e ∷ es) =
    let rest = latest_cancel job_id es in
    if is_cancelled_of job_id e then later_of rest e.occurred_at else rest

abbrev pub resource_item : Db → Job → JobResourceItem
unfolding latest_status latest_cancel
resource_item db j = record {
  job_id = j.job_id;
  description = j.description;
  job_type = j.job_type;
  created_at = j.created_at;
  job_state = j.state;
  latest_run_status = latest_status j.job_id db;
  cancelled_at = latest_cancel j.job_id db.events;
}

abbrev pub is_of : String → Job → Bool
is_of user_id j = str_eq j.user_id user_id

-- The items, and the total.
unfoldable pub list_jobs_resource : String → ℕ → Db → List JobResourceItem × ℕ
unfolding resource_item
list_jobs_resource user_id limit db = (
  map (resource_item db) (take limit (newest_first (select (is_of user_id) db.jobs))),
  count (is_of user_id) db.jobs,
)

-- A row of `_query_recent_runs`, as the document shows it.
pub record RecentRun : Type 0 where
  pub job_id : ℕ
  pub run_id : ℕ
  pub action : String
  pub status : Option String
  pub start_at : Option ℕ
  pub finish_at : Option ℕ
  pub error_excerpt : Option String

-- `_TERMINAL_STATUSES`
abbrev is_terminal_status : RunStatus → Bool
is_terminal_status RunStatus.succeeded = true
is_terminal_status RunStatus.failed = true
is_terminal_status RunStatus.cancelled = true
is_terminal_status _ = false

-- `finish_at >= cutoff`: NULL is not.
abbrev since_cutoff : ℕ → Option ℕ → Bool
since_cutoff cutoff none = false
since_cutoff cutoff (some t) = leb cutoff t

-- The rows of the join with the user's jobs; a job id names one job.
abbrev pub is_recent : String → ℕ → List Job → JobRun → Bool
is_recent user_id cutoff jobs r =
    exists (is_own_job user_id r.job_id) jobs
    && (is_terminal_status r.status && since_cutoff cutoff r.finish_at)

abbrev finish_of : JobRun → ℕ
finish_of r = elim r.finish_at [ none ↦ 0 | some t ↦ t ]

-- `_MAX_ROWS` and the window of 24 hours
abbrev pub max_rows : ℕ
max_rows = 50

unfoldable pub query_recent_runs : String → ℕ → Db → List JobRun
query_recent_runs user_id cutoff db = take max_rows (
    order_by (λ (a b : JobRun). leb (finish_of b) (finish_of a))
      (select (is_recent user_id cutoff db.jobs) db.runs))

abbrev pub recent_run : (Message → String) → String → Db → JobRun → RecentRun
recent_run excerpt user_id db r = record {
  job_id = r.job_id;
  run_id = r.run_id;
  action = elim (find_own_job user_id r.job_id db) [ none ↦ "" | some j ↦ j.action ];
  status = to_external (status_name r.status);
  start_at = r.start_at;
  finish_at = r.finish_at;
  error_excerpt = or_none (Option.map excerpt r.error_message);
}

unfoldable pub read_tasks_recent_results : (Message → String) → ℕ → String → Db → List RecentRun
unfolding query_recent_runs
read_tasks_recent_results excerpt now user_id db =
    map (recent_run excerpt user_id db)
      (take max_rows (query_recent_runs user_id (now - 24 * hour) db))
