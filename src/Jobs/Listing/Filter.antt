-- ===== src/Jobs/Listing/Filter.antt =====
-- The `status` filter of a listing against the status that a client is shown.
use task_scheduler_mcp.Mcp.StatusMapping.{
  status_name, state_name, to_job_states, to_external_job_status, to_internal_set,
}
use task_scheduler_mcp.Mcp.StatusMapping.RoundTrip.{external_name, External}
use task_scheduler_mcp.Jobs.Listing.{
  latest_status, newest_first, not_after, page_rows, not_before, Query, list_jobs, base_where,
  matches_status,
}
use task_scheduler_mcp.Store.{Job, Db, RunStatus, JobState}
use mathlib.Core.Option
use task_scheduler_mcp.Common.{
  All-order_by, All-drop, length-order_by, length-drop, length-take-min, length-map, min, ◌-◌, ◌*◌,
  String, ◌≡◌, refl, ap, ◌∙◌, Bool, true, false, ◌&&◌, Option, none, some, str_eq, eq_iff, &&-left,
  length, drop, select, All, All-map, length-select, All-select, All-take,
}

-- The status that the handlers show for a job and its latest run.
abbrev pub shown : JobState → Option RunStatus → Option String
shown state latest = to_external_job_status (state_name state) (Option.map status_name latest)

abbrev pub is_text : String → Option String → Bool
is_text s none = false
is_text s (some t) = str_eq t s

filter_never_run :
    (state : JobState) (e : External)
    → matches_status
        (to_internal_set (external_name e))
        (to_job_states (external_name e))
        state
        none
      ≡ is_text (external_name e) (shown state none)
unfolding matches_status to_internal_set to_job_states to_external_job_status
filter_never_run JobState.active External.scheduled = refl
filter_never_run JobState.completed External.scheduled = refl
filter_never_run JobState.cancelled External.scheduled = refl
filter_never_run _ _ = refl

filter_latest :
    (state : JobState) (s : RunStatus) (e : External)
    → matches_status
        (to_internal_set (external_name e))
        (to_job_states (external_name e))
        state
        (some s)
      ≡ is_text (external_name e) (shown state (some s))
unfolding matches_status to_internal_set to_job_states to_external_job_status
filter_latest state RunStatus.pending External.scheduled = refl
filter_latest state RunStatus.queued External.scheduled = refl
filter_latest state RunStatus.running External.scheduled = refl
filter_latest state RunStatus.retrying External.scheduled = refl
filter_latest state RunStatus.succeeded External.scheduled = refl
filter_latest state RunStatus.failed External.scheduled = refl
filter_latest state RunStatus.cancelled External.scheduled = refl
filter_latest state _ _ = refl

filter_row :
    (e : External) (state : JobState) (latest : Option RunStatus)
    → matches_status
        (to_internal_set (external_name e))
        (to_job_states (external_name e))
        state
        latest
      ≡ is_text (external_name e) (shown state latest)
filter_row e state none = filter_never_run state e
filter_row e state (some s) = filter_latest state s e

pub text_shown : (s : String) (o : Option String) → is_text s o ≡ true → o ≡ some s
text_shown s none h = cc
text_shown s (some t) h = ap some ((eq_iff t s).0 h)

-- A query as `handle_task_list` builds it for an external status.
abbrev pub AsksFor : External → Query → Type 0
AsksFor e q =
    (q.status_filter ≡ to_internal_set (external_name e))
    × (q.job_state_filter ≡ to_job_states (external_name e))

-- A listing by an external status is exact: a job stands on it exactly when it is the caller's, it
-- was created in the range, and the status that the client is shown for it is the one asked for.
pub base_where-shown :
    (e : External) (q : Query) (db : Db) (j : Job)
    → AsksFor e q
    → base_where q db j ≡ (
        str_eq j.user_id q.user_id
        && (not_before q.created_at_from j.created_at
            && (not_after q.created_at_to j.created_at
                && is_text (external_name e) (shown j.state (latest_status j.job_id db)))))
unfolding base_where
base_where-shown e q db j asks =
    rw (asks.0, asks.1, filter_row e j.state (latest_status j.job_id db))

-- The rows of a page: as many as the total leaves for it, and each of them is a job of the caller
-- that the filters admit.
pub list_jobs_page :
    (q : Query) (db : Db)
    → (length (list_jobs q db).items
        ≡ min q.page_size ((list_jobs q db).total - (q.page - 1) * q.page_size))
      × All
          (λ (j : Job). (str_eq j.user_id q.user_id ≡ true) × (base_where q db j ≡ true))
          (page_rows q db)
unfolding list_jobs
list_jobs_page q db =
    let picked = select (base_where q db) db.jobs in
    let sorted = newest_first picked in
    let skip = (q.page - 1) * q.page_size in
    (
      length-map _ (page_rows q db)
          ∙ length-take-min q.page_size (drop skip sorted)
          ∙ ap (min q.page_size) (
              length-drop skip sorted
              ∙ ap (λ n. n - skip)
                  (length-order_by _ picked ∙ length-select (base_where q db) db.jobs)),
      All-map (page_rows q db) (λ j h. (&&-left _ _ h, h))
          (All-take _ q.page_size (drop skip sorted) (
            All-drop _ skip sorted
              (All-order_by _ _ picked (All-select (base_where q db) db.jobs)))),
    )
