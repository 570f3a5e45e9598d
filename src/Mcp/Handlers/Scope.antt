-- ===== src/Mcp/Handlers/Scope.antt =====
-- `task.status` reads the rows of the caller's jobs only.
use task_scheduler_mcp.Store.Session.{◌>>=◌}
use task_scheduler_mcp.Mcp.TaskCreate.{not_integer, absent, IntArg}
use task_scheduler_mcp.Mcp.Handlers.{negative, integer, handle_task_status}
use task_scheduler_mcp.Jobs.View.{get_job_with_runs, is_own_job, find_own_job, newest_runs}
use task_scheduler_mcp.Store.{JobRun, Db, Job}
use mathlib.Core.Path.{subst}
use task_scheduler_mcp.Common.{
  select-implied, head?-select-cases, ℕ, String, ◌≡◌, refl, sym, ap, ◌∙◌, inl, inr, Bool, true,
  List, str_eq, ◌==◌, ==_iff, &&-right, head?, select, exists, order_by,
}

-- The rows of a user: the jobs, and the runs of those jobs.
abbrev pub is_of : String → Job → Bool
is_of user_id j = str_eq j.user_id user_id

abbrev runs_own : String → List Job → JobRun → Bool
runs_own user_id jobs r = exists (is_own_job user_id r.job_id) jobs

abbrev pub own_rows : String → Db → Db
own_rows user_id db = record db {
  jobs = select (is_of user_id) db.jobs;
  runs = select (runs_own user_id db.jobs) db.runs;
}

find_own_job-own_rows :
    (user_id : String) (job_id : ℕ) (db : Db)
    → find_own_job user_id job_id (own_rows user_id db) ≡ find_own_job user_id job_id db
find_own_job-own_rows user_id job_id db =
    ap head?
      (select-implied (is_own_job user_id job_id) (is_of user_id) db.jobs (λ j h. &&-right _ _ h))

newest_runs-own_rows :
    (user_id : String) (job_id : ℕ) (db : Db)
    → exists (is_own_job user_id job_id) db.jobs ≡ true
    → newest_runs job_id (own_rows user_id db) ≡ newest_runs job_id db
unfolding newest_runs
newest_runs-own_rows user_id job_id db own = ap (order_by _) (
    select-implied (λ (r : JobRun). r.job_id == job_id) (runs_own user_id db.jobs) db.runs
      (λ r h.
        let same : r.job_id ≡ job_id = (==_iff r.job_id job_id).0 h in
        subst (λ k. exists (is_own_job user_id k) db.jobs ≡ true) (sym same) own))

-- The answer of task.status depends on the caller's own jobs and their runs alone: with every row
-- of every other user removed it is the same, so another user's job reads like a missing one.
pub handle_task_status-own_rows :
    (user_id : String) (job_id_raw : IntArg) (include_runs : Bool) (db : Db)
    → handle_task_status user_id job_id_raw include_runs (own_rows user_id db)
      ≡ handle_task_status user_id job_id_raw include_runs db
unfolding handle_task_status get_job_with_runs
handle_task_status-own_rows user_id absent include_runs db = refl
handle_task_status-own_rows user_id not_integer include_runs db = refl
handle_task_status-own_rows user_id (negative n) include_runs db = refl
handle_task_status-own_rows user_id (integer job_id) include_runs db =
    elim (head?-select-cases (is_own_job user_id job_id) db.jobs) [
      | inl (missing, nothing) ↦
          let gone = find_own_job-own_rows user_id job_id db ∙ nothing in rw (◌>>=◌, gone, nothing)
      | inr (job, there, found) ↦
          let kept = find_own_job-own_rows user_id job_id db ∙ found in
          rw (◌>>=◌, kept, found, newest_runs-own_rows user_id job_id db there)
    ]
