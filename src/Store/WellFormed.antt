-- ===== src/Store/WellFormed.antt =====
-- The invariant of the tables of runs and events, and what keeps it.
use task_scheduler_mcp.Common.{
  ◌∷◌, ℕ, ◌≤◌, ◌<◌, ◌≡◌, Bool, true, some, List, arith, if◌then◌else◌, All, All-map, All-intro,
  All-update, count-update-le, count, update,
}
use task_scheduler_mcp.Store.{
  RunStatus, Db, JobRun, RunEvent, run_of, executes, is_executing, same_trigger, same_tick,
}
use task_scheduler_mcp.Store.Replay.{replay}

pub record IsWellFormed (db : Db) : Type 0 where
  -- The sequence of run ids is ahead of every row.
  pub fresh : All (λ (r : JobRun). r.run_id < db.next_run_id) db.runs
  pub one_id : (k : ℕ) → count (run_of k) db.runs ≤ 1
  -- The outbox tells the status of every run.
  pub told : All (λ (r : JobRun). replay r.run_id db.events ≡ some r.status) db.runs
  -- Forbid-concurrency: at most one executing run for each job.
  pub one_executing : (j : ℕ) → count (executes j) db.runs ≤ 1
  -- At most one run for each cause.
  pub one_trigger : (j u : ℕ) → count (same_trigger j u) db.runs ≤ 1
  pub one_tick : (j t : ℕ) → count (same_tick j t) db.runs ≤ 1

-- The columns of a run that identify it and its cause.
pub record SameKeys (r s : JobRun) : Type 0 where
  pub run_id : s.run_id ≡ r.run_id
  pub job_id : s.job_id ≡ r.job_id
  pub scheduled_at : s.scheduled_at ≡ r.scheduled_at
  pub wait_for_run_id : s.wait_for_run_id ≡ r.wait_for_run_id

-- `executing` is free to fall, not to rise.
abbrev NotWoken : JobRun → JobRun → Type 0
NotWoken r s = is_executing s.status ≡ true → is_executing r.status ≡ true

module _ (p : JobRun → Bool) (f : JobRun → JobRun) (keys : (r : JobRun) → SameKeys r (f r)) where
  row-keys : (r : JobRun) → SameKeys r (if p r then f r else r)
  row-keys r = ground (arith, keys r)

  -- An UPDATE of the runs, with the events that tell it, keeps the invariant.
  pub update-IsWellFormed :
      (db : Db) (events : List RunEvent) (next_event_id : ℕ)
      → IsWellFormed db
      → All (λ (r : JobRun). NotWoken r (if p r then f r else r)) db.runs
      → All (λ (r : JobRun). replay r.run_id events ≡ some (if p r then f r else r).status) db.runs
      → IsWellFormed
          (record db { runs = update p f db.runs; events = events; next_event_id = next_event_id })
  update-IsWellFormed db events next_event_id w calm tells = record {
    fresh = All-update p f _ db.runs (All-map db.runs (λ r h. ground (arith, row-keys r)) w.fresh);
    one_id = λ k. omega (
      arith,
      count-update-le p f (run_of k) db.runs (All-intro db.runs (λ r. ground (arith, row-keys r))),
      w.one_id k,
    );
    told = All-update p f _ db.runs (All-map db.runs (λ r h. ground (arith, row-keys r)) tells);
    one_executing = λ j. omega (
      arith,
      count-update-le p f (executes j) db.runs
          (All-map db.runs (λ r h. ground (arith, row-keys r)) calm),
      w.one_executing j,
    );
    one_trigger = λ j u. omega (
      arith,
      count-update-le p f (same_trigger j u) db.runs
          (All-intro db.runs (λ r. ground (arith, row-keys r))),
      w.one_trigger j u,
    );
    one_tick = λ j t. omega (
      arith,
      count-update-le p f (same_tick j t) db.runs
          (All-intro db.runs (λ r. ground (arith, row-keys r))),
      w.one_tick j t,
    );
  }

-- One run's status is written, whatever it was, with the event that tells it.
pub transition-IsWellFormed :
    (db : Db) (k : ℕ) (s : RunStatus) (f : JobRun → JobRun) (e : RunEvent) (next_event_id : ℕ)
    → ((r : JobRun) → SameKeys r (f r))
    → ((r : JobRun) → (f r).status ≡ s)
    → e.run_id ≡ k
    → e.status_to ≡ some s
    → IsWellFormed db
    → All
        (λ (r : JobRun). run_of k r ≡ true → is_executing s ≡ true → is_executing r.status ≡ true)
        db.runs
    → IsWellFormed (record db {
      runs = update (run_of k) f db.runs;
      events = e ∷ db.events;
      next_event_id = next_event_id;
    })
transition-IsWellFormed db k s f e next_event_id keys sets about tells w calm =
    update-IsWellFormed (run_of k) f keys db (e ∷ db.events) next_event_id w
      (All-map db.runs (λ r h. ground (arith, sets r, h)) calm)
      (All-map db.runs (λ r h. ground (arith, sets r)) w.told)
