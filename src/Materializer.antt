-- ===== src/Materializer.antt =====
-- app/domain/run_materializer.py: the single owner of run creation. `croniter` and `zoneinfo` are
-- the parameter `calendar`. The advisory lock makes the check and the insert one step, so a step of
-- another session never stands between them here.
pub mod Spawning
pub mod Once
use task_scheduler_mcp.Common.{
  ℕ, ◌+◌, String, Bool, true, false, Option, none, some, ◌==◌, ◌&&◌, ◌||◌, if◌then◌else◌, exists,
  max, str_eq, ◌<◌, ◌≡◌, ◌∷◌, not, ◌-◌,
}
use task_scheduler_mcp.Store.{
  same_trigger, same_tick, Db, Job, JobRun, RunStatus, EventType, DateTime, truncate_hour, executes,
  is_executing, is_none, is_some_id,
}
use task_scheduler_mcp.Store.Session.{
  or_raise, raise_if, Session, Result, ok, err, concurrency_error, integrity_error, cron_error,
  pure, raise, ◌>>=◌, ◌>>◌, gets, modify, add_event,
}

-- What `ZoneInfo(key)` does: it returns, raises ZoneInfoNotFoundError or KeyError, raises an OSError
-- where the key names what cannot be read, or raises the ValueError of a malformed key.
pub data ZoneLookup : Type 0 where
  zone_found zone_missing zone_unreadable zone_malformed : ZoneLookup

-- What the program calls of croniter and zoneinfo.
pub record Calendar : Type 0 where
  -- `croniter(expr, start_time=start).get_next(datetime)` in the zone; `none` when it raises
  pub get_next : String → String → ℕ → Option DateTime
  -- `croniter.is_valid(expr)`
  pub is_valid : String → Bool
  pub zone : String → ZoneLookup

-- `get_next` answers an instant strictly after `start_time`.
abbrev pub GetNextLater : Calendar → Type 0
GetNextLater calendar =
    (expr tz : String) (start : ℕ) (d : DateTime)
    → calendar.get_next expr tz start ≡ some d
    → start < d.utc

-- `next_after` of app/config/cron.py, at an aware `ref`.
unfoldable pub next_after : Calendar → String → String → ℕ → Session DateTime
next_after calendar expr tz ref = or_raise (calendar.get_next expr tz (ref - 1)) cron_error

unfoldable pub has_executing_run : ℕ → Db → Bool
has_executing_run job_id db = exists (executes job_id) db.runs

-- The rows that the three partial unique indexes compare with a new row.
abbrev pub same_nonterminal : JobRun → JobRun → Bool
same_nonterminal new r =
    is_executing new.status && executes new.job_id r && (r.scheduled_at == new.scheduled_at)

abbrev pub same_cause : Option ℕ → JobRun → JobRun → Bool
same_cause none new r = same_tick new.job_id new.scheduled_at r
same_cause (some upstream) new r = same_trigger new.job_id upstream r

-- `session.add(run)` and `flush()`: the unique indexes are checked by the database.
unfoldable pub insert_run : JobRun → Session (Unit {0})
insert_run new db =
    if exists (same_nonterminal new) db.runs || exists (same_cause new.wait_for_run_id new) db.runs
    then err integrity_error
    else ok (tt, record db { runs = new ∷ db.runs; next_run_id = db.next_run_id + 1 })

abbrev pub new_run : ℕ → ℕ → Job → DateTime → RunStatus → Option ℕ → JobRun
new_run now run_id job run_at status wait_for_run_id = record {
  run_id = run_id;
  time_bucket = truncate_hour run_at;
  job_id = job.job_id;
  user_id = job.user_id;
  scheduled_at = run_at.utc;
  status = status;
  result = none;
  error_message = none;
  error_code = none;
  retry_count = 0;
  max_retries = 3;
  wait_for_run_id = wait_for_run_id;
  start_at = none;
  finish_at = none;
  heartbeat_at = none;
  created_at = now;
  updated_at = now;
}

-- `_spawn_run`
unfoldable pub spawn_run : ℕ → Job → DateTime → RunStatus → Option ℕ → Session JobRun
unfolding has_executing_run insert_run
spawn_run now job run_at status wait_for_run_id = do
  executing ← gets (has_executing_run job.job_id)
  raise_if executing concurrency_error
  run_id ← gets (λ db. db.next_run_id)
  let run = new_run now run_id job run_at status wait_for_run_id
  insert_run run
  modify (add_event now run_id job.job_id EventType.created none (some status) none)
  pure run

unfoldable pub materialize_initial : ℕ → Job → DateTime → Session JobRun
unfolding spawn_run
materialize_initial now job run_at = spawn_run now job run_at RunStatus.pending none

-- The clamped anchor: a tick that was claimed early is not spawned again.
unfoldable pub materialize_successor : Calendar → ℕ → Job → JobRun → ℕ → Session JobRun
unfolding spawn_run next_after
materialize_successor calendar now job prev_run occurred_at = do
  let anchor = max occurred_at (prev_run.scheduled_at + 1)
  expr ← or_raise job.cron_expr cron_error
  run_at ← next_after calendar expr (if str_eq job.timezone "" then "UTC" else job.timezone) anchor
  spawn_run now job run_at RunStatus.pending none

-- `occurred_at` comes from the database, so its wall clock is UTC's.
unfoldable pub materialize_downstream : ℕ → Job → ℕ → ℕ → Session JobRun
unfolding spawn_run
materialize_downstream now downstream_job upstream_run_id occurred_at =
    spawn_run now downstream_job (record { utc = occurred_at; wall = occurred_at })
      RunStatus.pending (some upstream_run_id)
