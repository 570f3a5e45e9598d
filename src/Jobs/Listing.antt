-- ===== src/Jobs/Listing.antt =====
-- `list_jobs` of app/domain/jobs.py. A frozenset of texts is a list of them; the DISTINCT ON subquery
-- is the newest run of each job, and the outer join leaves `none` where a job has no run.
use task_scheduler_mcp.Mcp.StatusMapping.{state_name, status_name, mem_text}
use task_scheduler_mcp.Jobs.View.{newest_runs}
pub mod Filter
use task_scheduler_mcp.Store.{is_none, JobRun, RunStatus, JobState, Job, Db}
use mathlib.Core.Option
use task_scheduler_mcp.Common.{
  ℕ, zero, suc, ◌+◌, ◌-◌, ◌*◌, ◌/◌, ◌%◌, ◌≤◌, ◌<◌, String, ◌≡◌, refl, ◌∙◌, ◌≢◌, ◌↔◌, ◌⊎◌, inl, inr,
  Bool, true, false, ◌&&◌, ◌||◌, Option, none, some, List, [], ◌∷◌, ◌++◌, map, str_eq, leb, ◌==◌,
  if◌then◌else◌, take, drop, head?, select, count, order_by,
}

pub record JobListItem : Type 0 where
  pub job_id : ℕ
  pub action : String
  pub created_at : ℕ
  pub job_state : JobState
  pub latest_run_status : Option RunStatus

pub record PagedJobs : Type 0 where
  pub items : List JobListItem
  pub total : ℕ
  pub page : ℕ
  pub page_size : ℕ

unfoldable pub latest_status : ℕ → Db → Option RunStatus
unfolding newest_runs
latest_status job_id db = Option.map (λ (r : JobRun). r.status) (head? (newest_runs job_id db))

-- `latest_run.status IN (…)`: NULL is in nothing.
abbrev status_in : Option RunStatus → List String → Bool
status_in none names = false
status_in (some s) names = mem_text (status_name s) names

-- Python's truth of an optional frozenset.
abbrev is_nonempty : Option (List String) → Bool
is_nonempty none = false
is_nonempty (some []) = false
is_nonempty (some (x ∷ xs)) = true

abbrev names_of : Option (List String) → List String
names_of none = []
names_of (some names) = names

-- The status part of `_base_where`.
unfoldable pub matches_status :
    Option (List String) → Option (List String) → JobState → Option RunStatus → Bool
matches_status none job_state_filter state latest = true
matches_status (some names) job_state_filter state latest =
    if is_nonempty job_state_filter
    then status_in latest names
      || (is_none latest && mem_text (state_name state) (names_of job_state_filter))
    else status_in latest names

abbrev pub not_before : Option ℕ → ℕ → Bool
not_before none t = true
not_before (some from) t = leb from t

abbrev pub not_after : Option ℕ → ℕ → Bool
not_after none t = true
not_after (some to) t = leb t to

pub record Query : Type 0 where
  pub user_id : String
  pub status_filter : Option (List String)
  pub job_state_filter : Option (List String)
  pub created_at_from : Option ℕ
  pub created_at_to : Option ℕ
  pub page : ℕ
  pub page_size : ℕ

-- `_base_where`
unfoldable pub base_where : Query → Db → Job → Bool
unfolding matches_status latest_status
base_where q db j =
    str_eq j.user_id q.user_id
    && (not_before q.created_at_from j.created_at
        && (not_after q.created_at_to j.created_at
            && matches_status q.status_filter q.job_state_filter j.state
                (latest_status j.job_id db)))

abbrev item_of : Db → Job → JobListItem
item_of db j = record {
  job_id = j.job_id;
  action = j.action;
  created_at = j.created_at;
  job_state = j.state;
  latest_run_status = latest_status j.job_id db;
}

abbrev pub newest_first : List Job → List Job
newest_first = order_by (λ (a b : Job). leb b.created_at a.created_at)

-- The rows of the page.
unfoldable pub page_rows : Query → Db → List Job
unfolding base_where
page_rows q db =
    take q.page_size
      (drop ((q.page - 1) * q.page_size) (newest_first (select (base_where q db) db.jobs)))

unfoldable pub list_jobs : Query → Db → PagedJobs
unfolding page_rows
list_jobs q db = record {
  items = map (item_of db) (page_rows q db);
  total = count (base_where q db) db.jobs;
  page = q.page;
  page_size = q.page_size;
}
