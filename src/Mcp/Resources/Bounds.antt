-- ===== src/Mcp/Resources/Bounds.antt =====
-- The size of a resource and whose rows it shows.
use task_scheduler_mcp.Jobs.Listing.{newest_first}
use task_scheduler_mcp.Store.{hour, JobRun, Message, Db}
use task_scheduler_mcp.Mcp.Resources.{
  max_rows, recent_run, resource_item, is_recent, is_of, query_recent_runs, list_jobs_resource,
  read_tasks_recent_results,
}
use task_scheduler_mcp.Common.{
  All-order_by, length-order_by, length-take-min, length-map, min, ℕ, ◌-◌, ◌*◌, ◌≤◌, String, ◌≡◌,
  ap, ◌∙◌, true, arith, length, take, select, All, length-select, All-select, All-take, length-take,
}

-- The resource of recent results shows at most 50 runs, each of a job of the user, terminal, and
-- finished in the last 24 hours.
read_tasks_recent_results_bounded :
    (excerpt : Message → String) (now : ℕ) (user_id : String) (db : Db)
    → (length (read_tasks_recent_results excerpt now user_id db) ≤ 50)
      × All
          (λ (r : JobRun). is_recent user_id (now - 24 * hour) db.jobs r ≡ true)
          (query_recent_runs user_id (now - 24 * hour) db)
unfolding read_tasks_recent_results query_recent_runs
read_tasks_recent_results_bounded excerpt now user_id db =
    let picked = select (is_recent user_id (now - 24 * hour) db.jobs) db.runs in
    (
      omega (
        arith,
        length-map (recent_run excerpt user_id db)
            (take max_rows (query_recent_runs user_id (now - 24 * hour) db)),
        length-take max_rows (query_recent_runs user_id (now - 24 * hour) db),
      ),
      All-take _ max_rows _ (All-order_by _ _ picked (All-select _ db.runs)),
    )

-- The list of a user's jobs has at most `limit` items, and all of them where the limit is no less than
-- the total.
list_jobs_resource_bounded :
    (user_id : String) (limit : ℕ) (db : Db)
    → length (list_jobs_resource user_id limit db).0
      ≡ min limit (list_jobs_resource user_id limit db).1
unfolding list_jobs_resource
list_jobs_resource_bounded user_id limit db =
    let own = select (is_of user_id) db.jobs in
    length-map (resource_item db) (take limit (newest_first own))
    ∙ length-take-min limit (newest_first own)
    ∙ ap (min limit) (length-order_by _ own ∙ length-select (is_of user_id) db.jobs)
