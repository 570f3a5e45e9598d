-- ===== src/Actions/UpstreamReader/Scope.antt =====
-- An upstream result is read from the caller's own runs only.
use task_scheduler_mcp.Actions.UpstreamReader.{
  resolve, display, OnInvalidJson, is_own_run, Formatter, resolve_or_terminal, Reader,
  resolve_for_display, read_upstream,
}
use task_scheduler_mcp.Store.{run_of, JobRun, Db}
use task_scheduler_mcp.Common.{select-implied, ℕ, String, ◌≡◌, refl, ap, str_eq, &&-right, select}

abbrev pub own_runs : String → Db → Db
own_runs user_id db = record db { runs = select (λ (r : JobRun). str_eq r.user_id user_id) db.runs }

read_upstream-own_runs :
    (reader : Reader) (run_id : ℕ) (user_id : String) (db : Db)
    → read_upstream reader run_id (own_runs user_id db) user_id
      ≡ read_upstream reader run_id db user_id
unfolding read_upstream
read_upstream-own_runs reader run_id user_id db =
    let same =
      select-implied (is_own_run user_id run_id) (λ (r : JobRun). str_eq r.user_id user_id) db.runs
        (λ r h. &&-right (run_of run_id r) (str_eq r.user_id user_id) h) in
    rw (read_upstream, same) refl

-- What a chained action reads of its upstream, for display or to process, depends on the caller's
-- own runs alone: with the runs of every other user removed it is the same.
pub resolve-own_runs :
    (reader : Reader) (formatter : Formatter) (on_invalid_json : OnInvalidJson) (run_id : ℕ)
    (user_id : String) (db : Db)
    → (resolve_for_display reader run_id (own_runs user_id db) formatter user_id
        ≡ resolve_for_display reader run_id db formatter user_id)
      × (resolve_or_terminal reader run_id (own_runs user_id db) on_invalid_json user_id
          ≡ resolve_or_terminal reader run_id db on_invalid_json user_id)
unfolding resolve_for_display resolve_or_terminal
resolve-own_runs reader formatter on_invalid_json run_id user_id db =
    let same = read_upstream-own_runs reader run_id user_id db in
    (ap (display formatter) same, ap (resolve on_invalid_json) same)
