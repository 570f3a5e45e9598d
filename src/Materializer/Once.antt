-- ===== src/Materializer/Once.antt =====
-- app/domain/run_materializer.py: one executing run for a job, one run for a cause, and the instant of
-- a successor.
use task_scheduler_mcp.Store.{
  executes, is_executing, same_trigger, RunStatus, JobRun, DateTime, Db, Job,
}
use task_scheduler_mcp.Store.Session.{◌>>=◌, integrity_error, concurrency_error, Result}
use task_scheduler_mcp.Materializer.Spawning.{spawn_run_lem}
use task_scheduler_mcp.Materializer.{
  next_after, same_cause, same_nonterminal, new_run, err, GetNextLater, ok, Calendar,
  materialize_successor, materialize_downstream, spawn_run,
}
use task_scheduler_mcp.Common.{
  max, ℕ, ◌+◌, ◌-◌, ◌≤◌, ◌<◌, String, ◌≡◌, sym, ap, ◌∙◌, inl, inr, true, ◌||◌, Option, none, some,
  List, [], arith, str_eq, if◌then◌else◌, Bool-cases, Option-cases, exists,
}

-- The value of a block that returns.
abbrev ReturnsValue : {A : Type 0} → (A → Type 0) → Result (A × Db) → Type 0
ReturnsValue P (ok (a, db)) = P a
ReturnsValue P (err e) = Unit

runs_of : {A : Type 0} → Result (A × Db) → List JobRun
runs_of (ok (a, db)) = db.runs
runs_of (err e) = []

-- What a spawn that returned has put in the table.
spawned_executes :
    (now : ℕ) (job : Job) (run_at : DateTime) (status : RunStatus) (cause : Option ℕ) (db db' : Db)
    (run : JobRun)
    → is_executing status ≡ true
    → spawn_run now job run_at status cause db ≡ ok (run, db')
    → exists (executes job.job_id) db'.runs ≡ true
unfolding runs_of
spawned_executes now job run_at status cause db db' run live h =
    let new = new_run now db.next_run_id job run_at status cause in
    let e = sym (spawn_run_lem now job run_at status cause db) ∙ h in
    elim (Bool-cases (exists (executes job.job_id) db.runs)) [
      | inl busy ↦ absurd (cc (rw busy at e))
      | inr idle ↦
          elim (Bool-cases
            (exists (same_nonterminal new) db.runs || exists (same_cause cause new) db.runs)) [
              | inl double ↦ absurd (cc (rw (idle, double) at e))
              | inr single ↦ rw (sym (ap runs_of (rw (idle, single) at e))) (ground (arith, live))
            ]
    ]

-- While the run that a spawn created is executing, another spawn for its job raises ConcurrencyError,
-- whatever its instant and its cause.
spawn_run-twice :
    (now later : ℕ) (job : Job) (run_at other_at : DateTime) (status other : RunStatus)
    (cause other_cause : Option ℕ) (db db' : Db) (run : JobRun)
    → is_executing status ≡ true
    → spawn_run now job run_at status cause db ≡ ok (run, db')
    → spawn_run later job other_at other other_cause db' ≡ err concurrency_error
spawn_run-twice now later job run_at other_at status other cause other_cause db db' run live h =
    rw (
      spawn_run_lem later job other_at other other_cause db',
      spawned_executes now job run_at status cause db db' run live h,
    )

-- A redelivered event spawns nothing: where the downstream job already has a run for the upstream
-- run, in any status, another is refused, by ConcurrencyError or by IntegrityError.
pub materialize_downstream-once :
    (now : ℕ) (job : Job) (upstream occurred_at : ℕ) (db : Db)
    → exists (same_trigger job.job_id upstream) db.runs ≡ true
    → materialize_downstream now job upstream occurred_at db ≡ (
        if exists (executes job.job_id) db.runs then err concurrency_error else err integrity_error)
unfolding materialize_downstream
materialize_downstream-once now job upstream occurred_at db h =
    spawn_run_lem now job (record { utc = occurred_at; wall = occurred_at }) RunStatus.pending
      (some upstream) db
    ∙ elim (Bool-cases (exists (executes job.job_id) db.runs)) [
      | inl busy ↦ rw busy
      | inr idle ↦ rw (idle, h) (ground arith)
    ]

spawned_at :
    (now : ℕ) (job : Job) (run_at : DateTime) (at_most before : ℕ) (db : Db)
    → (before < run_at.utc) × (at_most ≤ run_at.utc)
    → ReturnsValue
        (λ (run : JobRun). (before < run.scheduled_at) × (at_most ≤ run.scheduled_at))
        (spawn_run now job run_at RunStatus.pending none db)
spawned_at now job run_at at_most before db h =
    rw (spawn_run_lem now job run_at RunStatus.pending none db)
      (elim (Bool-cases (exists (executes job.job_id) db.runs)) [
        | inl busy ↦ rw busy tt
        | inr idle ↦
            elim (Bool-cases (
              exists
                (same_nonterminal (new_run now db.next_run_id job run_at RunStatus.pending none))
                db.runs
              || exists
                  (same_cause none (new_run now db.next_run_id job run_at RunStatus.pending none))
                  db.runs)) [ inl double ↦ rw (idle, double) tt | inr single ↦ rw (idle, single) h ]
      ])

-- A successor that is spawned is scheduled after the tick that it follows, and not before the event
-- that asked for it.
materialize_successor-later :
    (calendar : Calendar) (now : ℕ) (job : Job) (prev_run : JobRun) (occurred_at : ℕ) (db : Db)
    → GetNextLater calendar
    → ReturnsValue
        (λ (run : JobRun).
          (prev_run.scheduled_at < run.scheduled_at) × (occurred_at ≤ run.scheduled_at))
        (materialize_successor calendar now job prev_run occurred_at db)
unfolding materialize_successor next_after
materialize_successor-later calendar now job prev_run occurred_at db later =
    elim (Option-cases job.cron_expr) [
      | inl missing ↦ rw missing tt
      | inr (expr, found) ↦ rw (found, ◌>>=◌) (with_expr expr)
    ]
  where
    tz : String
    tz = if str_eq job.timezone "" then "UTC" else job.timezone

    anchor : ℕ
    anchor = max occurred_at (prev_run.scheduled_at + 1)

    with_expr :
        (expr : String)
        → ReturnsValue
            (λ (run : JobRun).
              (prev_run.scheduled_at < run.scheduled_at) × (occurred_at ≤ run.scheduled_at))
            ((next_after calendar expr tz anchor
                >>= (λ run_at. spawn_run now job run_at RunStatus.pending none))
              db)
    with_expr expr = elim (Option-cases (calendar.get_next expr tz (anchor - 1))) [
      | inl raised ↦ rw (raised, ◌>>=◌) tt
      | inr (run_at, found) ↦
          rw (found, ◌>>=◌)
            (spawned_at now job run_at occurred_at prev_run.scheduled_at db (
              omega (arith, later expr tz (anchor - 1) run_at found),
              omega (arith, later expr tz (anchor - 1) run_at found),
            ))
    ]
