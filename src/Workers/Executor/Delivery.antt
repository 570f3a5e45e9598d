-- ===== src/Workers/Executor/Delivery.antt =====
-- One delivery of a message by app/workers/executor.py, whatever the action answers.
use task_scheduler_mcp.Jobs.Settle.{settle_job}
use task_scheduler_mcp.Workers.Executor.Invariant.{
  write_permanent_failure-IsWellFormed, write_terminal-IsWellFormed, claim-IsWellFormed,
  write_retrying-IsWellFormed,
}
use task_scheduler_mcp.Workers.Executor.Claim.{claim_won-RunIs, is_running, RunIs}
use task_scheduler_mcp.Store.WellFormed.{IsWellFormed}
use task_scheduler_mcp.Workers.Executor.{
  wire_upstream, write_permanent_failure, dispatch_handler, write_retrying, write_terminal,
  timed_out, valid, failure, success, invalid, dispatch_params, returned, Validation, raised,
  Handler, claim, Outcome, dispatch, dispatch_loaded, settle_outcome, Registry, Receipt,
}
use task_scheduler_mcp.Store.{is_executing, Job, Db, run_of, RunStatus, JobRun}
use task_scheduler_mcp.Common.{
  ℕ, ◌≡◌, refl, inl, inr, Bool, true, false, Option, none, some, List, arith, Bool-cases,
  Option-cases, update, All, All-map, All-intro, All-update,
}

-- The run's rows after a write of its status.
RunIs-update :
    (g : RunStatus → Bool) (run_id : ℕ) (f : JobRun → JobRun) (runs : List JobRun)
    → ((r : JobRun) → g (f r).status ≡ true)
    → All
        (λ (r : JobRun). run_of run_id r ≡ true → g r.status ≡ true)
        (update (run_of run_id) f runs)
RunIs-update g run_id f runs h =
    All-update (run_of run_id) f _ runs (All-intro runs (λ r. ground (arith, h r)))

-- What a delivery that ends leaves in the table for the receipt that it answers.
abbrev pub matches_receipt : Receipt → RunStatus → Bool
matches_receipt Receipt.deleted RunStatus.succeeded = true
matches_receipt Receipt.deleted RunStatus.failed = true
matches_receipt Receipt.left RunStatus.retrying = true
matches_receipt _ _ = false

module _ (registry : Registry) (meanwhile : Db → Db) (now later run_id job_id : ℕ) where
  abbrev pub Calm : Type 0
  Calm =
      (db : Db)
      → IsWellFormed db
      → RunIs is_running run_id db
      → IsWellFormed (meanwhile db) × RunIs is_running run_id (meanwhile db)

  settle_outcome-RunIs :
      (timeout : ℕ) (o : Outcome) (db : Db)
      → let (db', receipt) = settle_outcome later timeout run_id job_id o db in
        RunIs (matches_receipt receipt) run_id db'
  unfolding settle_outcome write_terminal write_retrying settle_job
  settle_outcome-RunIs timeout timed_out db = RunIs-update _ run_id _ db.runs (λ r. refl)
  settle_outcome-RunIs timeout (raised exc) db = RunIs-update _ run_id _ db.runs (λ r. refl)
  settle_outcome-RunIs timeout (returned a) db = elim (Bool-cases a.ok) [
    | inl fine ↦ rw fine (RunIs-update _ run_id _ db.runs (λ r. refl))
    | inr bad ↦ elim (Bool-cases a.retryable) [
      | inl again ↦ rw (bad, again) (RunIs-update _ run_id _ db.runs (λ r. refl))
      | inr never ↦ rw (bad, never) (RunIs-update _ run_id _ db.runs (λ r. refl))
    ]
  ]

  running_executes : (db : Db) → RunIs is_running run_id db → RunIs is_executing run_id db
  running_executes db h = All-map db.runs (λ r k of_run. ground (arith, k of_run)) h

  settle_outcome-IsWellFormed :
      (timeout : ℕ) (o : Outcome) (db : Db)
      → IsWellFormed db
      → RunIs is_running run_id db
      → IsWellFormed (settle_outcome later timeout run_id job_id o db).0
  unfolding settle_outcome
  settle_outcome-IsWellFormed timeout timed_out db w r =
      write_retrying-IsWellFormed later run_id job_id _ db w (running_executes db r)
  settle_outcome-IsWellFormed timeout (raised exc) db w r =
      write_retrying-IsWellFormed later run_id job_id _ db w (running_executes db r)
  settle_outcome-IsWellFormed timeout (returned a) db w r = elim (Bool-cases a.ok) [
    | inl fine ↦ rw fine (write_terminal-IsWellFormed later run_id job_id success a db w)
    | inr bad ↦ elim (Bool-cases a.retryable) [
      | inl again ↦
          rw (bad, again)
            (write_retrying-IsWellFormed later run_id job_id _ db w (running_executes db r))
      | inr never ↦ rw (bad, never) (write_terminal-IsWellFormed later run_id job_id failure a db w)
    ]
  ]

  dispatch_loaded-IsWellFormed :
      (job : Option Job) (run : Option JobRun) (db : Db)
      → Calm
      → IsWellFormed db
      → RunIs is_running run_id db
      → IsWellFormed (dispatch_loaded registry meanwhile now later run_id job_id job run db).0
  unfolding dispatch_loaded
  dispatch_loaded-IsWellFormed none run db calm w r = w
  dispatch_loaded-IsWellFormed (some job) none db calm w r = w
  dispatch_loaded-IsWellFormed (some job) (some run) db calm w r =
      elim (Option-cases (registry job.action)) [
        | inl missing ↦
            rw missing (write_permanent_failure-IsWellFormed later run_id job_id _ none db w)
        | inr (handler, found) ↦ rw found (validated handler (handler.validate job.action_params))
      ]
    where
      validated :
          (handler : Handler) (v : Validation)
          → IsWellFormed
              (dispatch_params registry meanwhile now later run_id job_id handler v run db).0
      validated handler (invalid exc) =
          write_permanent_failure-IsWellFormed later run_id job_id _ _ db w
      validated handler (valid params) =
          settle_outcome-IsWellFormed handler.timeout_seconds _ (meanwhile db) (calm db w r).0
            (calm db w r).1

  -- A delivery keeps the invariant, whatever the registry, the params and the action's answer, where
  -- the other sessions keep it and leave the run RUNNING while its action runs.
  pub dispatch-IsWellFormed :
      (db : Db)
      → Calm
      → IsWellFormed db
      → IsWellFormed (dispatch registry meanwhile now later run_id job_id db).0
  unfolding dispatch
  dispatch-IsWellFormed db calm w = elim (Bool-cases (claim now run_id job_id db).0) [
    | inr lost ↦ rw lost (claim-IsWellFormed now run_id job_id db w)
    | inl won ↦ rw won (
        dispatch_loaded-IsWellFormed _ _ (claim now run_id job_id db).1 calm
          (claim-IsWellFormed now run_id job_id db w)
          (claim_won-RunIs now run_id job_id db (w.one_id run_id) won))
  ]

  -- After a delivery that found its job and its run, the message is deleted exactly where the run is
  -- terminal: it is SUCCEEDED or FAILED then, and RETRYING where the message is left.
  pub dispatch_handler-RunIs :
      (h : Option Handler) (job : Job) (run : JobRun) (db : Db)
      → let (db', receipt) =
          dispatch_handler registry meanwhile now later run_id job_id h job run db in
        RunIs (matches_receipt receipt) run_id db'
  unfolding dispatch_handler write_permanent_failure settle_job
  dispatch_handler-RunIs none job run db = RunIs-update _ run_id _ db.runs (λ r. refl)
  dispatch_handler-RunIs (some h) job run db = validated (h.validate job.action_params)
    where
      validated :
          (v : Validation)
          → let (db', receipt) =
              dispatch_params registry meanwhile now later run_id job_id h v run db in
            RunIs (matches_receipt receipt) run_id db'
      validated (invalid exc) = RunIs-update _ run_id _ db.runs (λ r. refl)
      validated (valid params) =
          settle_outcome-RunIs h.timeout_seconds (h.execute run (wire_upstream run params))
            (meanwhile db)
