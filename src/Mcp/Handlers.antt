-- ===== src/Mcp/Handlers.antt =====
-- app/mcp/handlers: the answers of `task.status`, `task.cancel` and `task.list`. `from_iso` is
-- `datetime.fromisoformat`.
use mathlib.Core.Option
use task_scheduler_mcp.Mcp.StatusMapping.{
  to_job_states, state_name, status_name, to_internal_set, to_external_job_status, to_external,
  mem_text,
}
use task_scheduler_mcp.Jobs.Listing.{list_jobs, PagedJobs, JobListItem}
use task_scheduler_mcp.Jobs.Create.{naive, aware, IsoTime}
use task_scheduler_mcp.Jobs.Cancel.{cancel_job}
use task_scheduler_mcp.Store.Session.{err, Error, begin, ok, Result}
use task_scheduler_mcp.Jobs.View.{get_job_with_runs, RunView, JobView}
use task_scheduler_mcp.Store.{Db, is_none, Message, RunStatus}
pub mod Scope
pub mod Pages
use task_scheduler_mcp.Mcp.Envelope.{success, failure, error, Envelope, ErrorBody, Code}
use task_scheduler_mcp.Mcp.TaskCreate.{negative, IntArg, absent, not_integer, integer, or_none}
use task_scheduler_mcp.Common.{
  ℕ, zero, suc, ◌+◌, ◌-◌, ◌*◌, ◌/◌, ◌%◌, ◌≤◌, ◌<◌, String, ◌≡◌, refl, ◌∙◌, ◌≢◌, ◌↔◌, ◌⊎◌, inl, inr,
  Bool, true, false, not, ◌&&◌, ◌||◌, Option, none, some, List, [], ◌∷◌, ◌++◌, map, str_eq, ltb,
  ◌==◌, if◌then◌else◌,
}

-- `to_external(status)` of a run's status.
abbrev pub external : RunStatus → Option String
external status = to_external (status_name status)

abbrev external_job_status : JobView → Option String
external_job_status view =
    to_external_job_status (state_name view.job_state)
      (Option.map status_name view.latest_run_status)

-- `data["error"]`
pub record ErrorData : Type 0 where
  pub code : Option String
  pub message : Option Message
  pub has_connect_url : Bool

pub record RunData : Type 0 where
  pub run_id : ℕ
  pub status : Option String
  pub scheduled_at : ℕ
  pub start_at : Option ℕ
  pub finish_at : Option ℕ
  pub error_code : Option String

pub record StatusData : Type 0 where
  pub job_id : ℕ
  pub action : String
  pub status : Option String
  pub triggered_by : Option ℕ
  pub error : Option ErrorData
  pub runs : Option (List RunData)

abbrev run_data : RunView → RunData
run_data r = record {
  run_id = r.run_id;
  status = external r.status;
  scheduled_at = r.scheduled_at;
  start_at = r.start_at;
  finish_at = r.finish_at;
  error_code = or_none r.error_code;
}

-- A message that is not the empty text.
abbrev message_or_none : Option Message → Option Message
message_or_none none = none
message_or_none (some (Message.text s)) = if str_eq s "" then none else some (Message.text s)
message_or_none (some message) = some message

-- `if view.error_code or view.error_message`
abbrev error_data : Option String → Option Message → Option ErrorData
error_data code message =
    if is_none code && is_none message
    then none
    else some (record {
      code = code;
      message = message;
      has_connect_url = elim code [ none ↦ false | some c ↦ str_eq c "MISSING_CONNECTION" ];
    })

abbrev status_data : JobView → Bool → StatusData
status_data view include_runs = record {
  job_id = view.job_id;
  action = view.action;
  status = external_job_status view;
  triggered_by = view.triggered_by;
  error = error_data (or_none view.error_code) (message_or_none view.error_message);
  runs = if include_runs then Option.map (map run_data) view.runs else none;
}

-- The default of `run_limit`.
abbrev pub run_limit : ℕ
run_limit = 10

abbrev status_answer : Bool → Result (JobView × Db) → Envelope StatusData
status_answer include_runs (ok (view, db)) = success (status_data view include_runs)
status_answer include_runs (err Error.job_not_found) = failure (error Code.not_found none)
status_answer include_runs (err _) = failure (error Code.internal none)

unfoldable pub handle_task_status : String → IntArg → Bool → Db → Envelope StatusData
unfolding get_job_with_runs
handle_task_status user_id (integer job_id) include_runs db =
    status_answer include_runs (get_job_with_runs user_id job_id include_runs run_limit db)
-- No job has a negative id.
handle_task_status user_id (negative n) include_runs db = failure (error Code.not_found none)
handle_task_status user_id _ include_runs db = failure (error Code.user_input (some "job_id"))

record CancelData : Type 0 where
  pub job_id : ℕ
  pub status : Option String

abbrev cancel_answer : Result JobView × Db → Envelope CancelData × Db
cancel_answer (ok view, db) =
    (success (record { job_id = view.job_id; status = external_job_status view }), db)
cancel_answer (err Error.job_not_found, db) = (failure (error Code.not_found none), db)
cancel_answer (err (Error.invalid_state status), db) = (failure (error Code.invalid_state none), db)
cancel_answer (err _, db) = (failure (error Code.internal none), db)

unfoldable handle_task_cancel : (Db → Db) → ℕ → ℕ → String → IntArg → Db → Envelope CancelData × Db
unfolding cancel_job
handle_task_cancel others fuel now user_id (integer job_id) db =
    cancel_answer (begin (cancel_job others fuel now user_id job_id) db)
handle_task_cancel others fuel now user_id (negative n) db =
    (failure (error Code.not_found none), db)
handle_task_cancel others fuel now user_id _ db =
    (failure (error Code.user_input (some "job_id")), db)

pub record ListItemData : Type 0 where
  pub job_id : ℕ
  pub action : String
  pub status : Option String
  pub created_at : ℕ

pub record ListData : Type 0 where
  pub jobs : List ListItemData
  pub total : ℕ
  pub page : ℕ
  pub page_size : ℕ

pub record ListArguments : Type 0 where
  pub page : IntArg
  pub page_size : IntArg
  pub status : Option String
  pub created_at_from : Option String
  pub created_at_to : Option String

-- `int(arguments.get(…, default))`, 0 where it raises; a negative number, which `< 1` refuses as it
-- does 0, is taken as 0.
abbrev pub int_or : ℕ → IntArg → ℕ
int_or default absent = default
int_or default not_integer = 0
int_or default (integer n) = n
int_or default (negative n) = 0

-- `_parse_tz_datetime`, `none` standing for its error envelope.
abbrev parse_tz_datetime : (String → Option IsoTime) → String → Option ℕ
parse_tz_datetime from_iso value = elim (from_iso value) [
  | none ↦ none
  | some (aware utc) ↦ some utc
  | some (naive wall) ↦ none
]

-- A bound of the range: absent, parsed, or an error.
abbrev parse_bound : (String → Option IsoTime) → Option String → Option (Option ℕ)
parse_bound from_iso none = some none
parse_bound from_iso (some value) = Option.map some (parse_tz_datetime from_iso value)

abbrev pub item_data : JobListItem → ListItemData
item_data item = record {
  job_id = item.job_id;
  action = item.action;
  status =
      to_external_job_status (state_name item.job_state)
        (Option.map status_name item.latest_run_status);
  created_at = item.created_at;
}

abbrev pub list_data : PagedJobs → ListData
list_data paged = record {
  jobs = map item_data paged.items;
  total = paged.total;
  page = paged.page;
  page_size = paged.page_size;
}

-- `_VALID_EXTERNAL_STATUSES`
abbrev pub is_external : String → Bool
is_external s = mem_text s ("scheduled" ∷ "running" ∷ "completed" ∷ "failed" ∷ "cancelled" ∷ [])

abbrev pub is_bad_status : Option String → Bool
is_bad_status none = false
is_bad_status (some s) = not (is_external s)

abbrev pub list_range :
    String → ℕ → ℕ → Option String → Option (Option ℕ) → Option (Option ℕ) → Db → Envelope ListData
unfolding list_jobs to_internal_set to_job_states
list_range user_id page page_size status none to db =
    failure (error Code.user_input (some "created_at_from"))
list_range user_id page page_size status (some from) none db =
    failure (error Code.user_input (some "created_at_to"))
list_range user_id page page_size status (some from) (some to) db = success (
    list_data (
      list_jobs
        (record {
          user_id = user_id;
          status_filter = Option.bind status to_internal_set;
          job_state_filter = Option.bind status to_job_states;
          created_at_from = from;
          created_at_to = to;
          page = page;
          page_size = page_size;
        })
        db))

unfoldable pub handle_task_list :
    (String → Option IsoTime) → String → ListArguments → Db → Envelope ListData
unfolding list_range
handle_task_list from_iso user_id arguments db =
    let page = int_or 1 arguments.page in
    let page_size = int_or 20 arguments.page_size in
    if ltb page 1
    then failure (error Code.user_input (some "page"))
    else if ltb page_size 1
    then failure (error Code.user_input (some "pageSize"))
    else if ltb 100 page_size
    then failure (error Code.user_input (some "pageSize"))
    else if is_bad_status arguments.status
    then failure (error Code.user_input (some "status"))
    else list_range user_id page page_size arguments.status
        (parse_bound from_iso arguments.created_at_from)
        (parse_bound from_iso arguments.created_at_to) db
