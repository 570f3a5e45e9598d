-- ===== src/Jobs/Cancel/Stopping.antt =====
-- A cancel stops the job: none of its runs is dispatched again.
use task_scheduler_mcp.Workers.Executor.{is_claimable}
use task_scheduler_mcp.Workers.Continuation.Consuming.{rejob-IsWellFormed}
use task_scheduler_mcp.Store.Session.{update_jobs}
use task_scheduler_mcp.Jobs.Settle.Cascade.{settle_downstreams-OnlySettles, Returns-map}
use task_scheduler_mcp.Jobs.Settle.Settled.{
  SettledJobs, count-settled, OnlySettles, Returns, actives, IsKeyed,
}
use task_scheduler_mcp.Store.WellFormed.{IsWellFormed}
use task_scheduler_mcp.Jobs.Settle.{settle_downstreams, is_active_job}
use task_scheduler_mcp.Workers.Executor.Claim.{is_running}
use task_scheduler_mcp.Jobs.Cancel.Flip.{
  snapshots, stands_for, flip-LeftIn, flip-IsWellFormed, flip-Snapshot, flip, Snapshot, LeftIn,
}
use task_scheduler_mcp.Jobs.Cancel.{
  cancel_status, same_row, cancel_state, is_cancellable, cancel_active, cancel_runs,
}
use task_scheduler_mcp.Store.{
  is_some_id, JobState, RunStatus, is_active, job_of, run_of, Job, Db, JobRun,
}
use task_scheduler_mcp.Common.{
  ◌||◌, exists, ◌&&◌, ℕ, ◌≤◌, ◌<◌, ◌≡◌, refl, ◌∙◌, inl, inr, Bool, true, false, List, [], ◌∷◌,
  arith, ◌==◌, Bool-cases, &&-left, select, update, count, All, All-map, All-intro, count-update-le,
}

cancel_runs-IsWellFormed :
    (now job_id : ℕ) (rest : List JobRun) (db : Db)
    → All (Snapshot db) rest
    → IsWellFormed db
    → IsWellFormed (cancel_runs now job_id rest db)
unfolding cancel_runs
cancel_runs-IsWellFormed now job_id [] db snaps w = w
cancel_runs-IsWellFormed now job_id (s ∷ rest) db snaps w =
    cancel_runs-IsWellFormed now job_id rest (flip now job_id s db)
      (All-map rest (λ t h. flip-Snapshot now job_id s t db h) snaps.1)
      (flip-IsWellFormed now job_id s db snaps.0 w)

-- No run of the job is left that a worker could claim: `is_claimable` is the executor's test.
abbrev IsStopped : ℕ → Db → Type 0
IsStopped job_id db =
    All (λ (r : JobRun). (r.job_id == job_id) ≡ true → is_claimable r.status ≡ false) db.runs

claimable_cancellable : (s : RunStatus) → is_claimable s ≡ is_cancellable s
claimable_cancellable RunStatus.pending = refl
claimable_cancellable RunStatus.queued = refl
claimable_cancellable RunStatus.retrying = refl
claimable_cancellable _ = refl

cancel_runs-IsStopped :
    (now job_id : ℕ) (rest : List JobRun) (db : Db)
    → All (Snapshot db) rest
    → LeftIn job_id rest db.runs
    → IsStopped job_id (cancel_runs now job_id rest db)
unfolding cancel_runs
cancel_runs-IsStopped now job_id [] db snaps h =
    All-map db.runs (λ r a of_job. ground (arith, a of_job, claimable_cancellable r.status)) h
cancel_runs-IsStopped now job_id (s ∷ rest) db snaps h =
    cancel_runs-IsStopped now job_id rest (flip now job_id s db)
      (All-map rest (λ t k. flip-Snapshot now job_id s t db k) snaps.1)
      (flip-LeftIn now job_id s rest db snaps.0 h)

all_left :
    (job_id : ℕ) (runs : List JobRun)
    → LeftIn job_id (select (λ (r : JobRun). r.job_id == job_id) runs) runs
all_left job_id [] = tt
all_left job_id (r ∷ rs) = (
  λ of_job _. ground (arith, of_job),
  All-map rs (λ x h of_job open_run. ground (arith, h of_job open_run)) (all_left job_id rs),
)

abbrev runs_running : Db → List JobRun
runs_running db = select (λ (r : JobRun). is_running r.status) db.runs

select-update_off :
    (p g : JobRun → Bool) (f : JobRun → JobRun) (runs : List JobRun)
    → All (λ (r : JobRun). p r ≡ true → (g r ≡ false) × (g (f r) ≡ false)) runs
    → select g (update p f runs) ≡ select g runs
select-update_off p g f [] a = refl
select-update_off p g f (r ∷ rs) a = ground (arith, a.0, select-update_off p g f rs a.1)

flip-running :
    (now job_id : ℕ) (s : JobRun) (db : Db)
    → Snapshot db s
    → runs_running (flip now job_id s db) ≡ runs_running db
flip-running now job_id s db snap = elim (Bool-cases (is_cancellable s.status)) [
  | inr kept ↦ rw kept
  | inl flips ↦ rw flips (
      select-update_off (same_row s) (λ r. is_running r.status) cancel_status db.runs
        (All-map db.runs (λ r stands mine. (not_running r stands mine flips, refl)) snap))
]
  where
    not_running :
        (r : JobRun)
        → (run_of s.run_id r ≡ true → stands_for s r ≡ true)
        → same_row s r ≡ true
        → is_cancellable s.status ≡ true
        → is_running r.status ≡ false
    not_running r stands mine flips =
        let it = stands (&&-left (run_of s.run_id r) _ mine) in ground (arith, it, flips)

cancel_runs-running :
    (now job_id : ℕ) (rest : List JobRun) (db : Db)
    → All (Snapshot db) rest
    → runs_running (cancel_runs now job_id rest db) ≡ runs_running db
unfolding cancel_runs
cancel_runs-running now job_id [] db snaps = refl
cancel_runs-running now job_id (s ∷ rest) db snaps =
    cancel_runs-running now job_id rest (flip now job_id s db)
      (All-map rest (λ t h. flip-Snapshot now job_id s t db h) snaps.1)
    ∙ flip-running now job_id s db snaps.0

-- The loop writes no job.
cancel_runs-jobs :
    (now job_id : ℕ) (rest : List JobRun) (db : Db)
    → (cancel_runs now job_id rest db).jobs ≡ db.jobs
unfolding cancel_runs
cancel_runs-jobs now job_id [] db = refl
cancel_runs-jobs now job_id (s ∷ rest) db =
    cancel_runs-jobs now job_id rest (flip now job_id s db) ∙ same
  where
    same : (flip now job_id s db).jobs ≡ db.jobs
    same = ground arith

count-cancelled :
    (job_id now : ℕ) (js : List Job)
    → count (is_active_job job_id) (update (is_active_job job_id) (cancel_state now) js) ≡ 0
count-cancelled job_id now [] = refl
count-cancelled job_id now (j ∷ js) = ground (arith, count-cancelled job_id now js)

-- The row of the job is cancelled, at the instant of the cancel.
abbrev pub is_cancelled_at : ℕ → ℕ → Job → Bool
is_cancelled_at job_id now j =
    job_of job_id j
    && (elim j.state as (λ _. Bool) [ JobState.cancelled ↦ true | _ ↦ false ]
        && is_some_id j.cancelled_at now)

or-true : (a b : Bool) → b ≡ true → (a || b) ≡ true
or-true a b h = ground arith

or-own : (a b : Bool) → a ≡ true → (a || b) ≡ true
or-own a b h = ground arith

or-later : (a b : Bool) → a ≡ false → (a || b) ≡ true → b ≡ true
or-later a b out h = ground arith

exists-cancelled :
    (job_id now : ℕ) (js : List Job)
    → exists (is_active_job job_id) js ≡ true
    → exists (is_cancelled_at job_id now) (update (is_active_job job_id) (cancel_state now) js)
      ≡ true
exists-cancelled job_id now [] h = h
exists-cancelled job_id now (j ∷ js) h = elim (Bool-cases (is_active_job job_id j)) [
  | inl here ↦ rw here (ground (arith, here))
  | inr other ↦
      let rest = exists-cancelled job_id now js (rw other at h) in rw other (or-true _ _ rest)
]

-- A settle leaves a cancelled row as it is.
settled-cancelled :
    (job_id now at : ℕ) (runs : List JobRun) (js ks : List Job)
    → SettledJobs now runs js ks
    → exists (is_cancelled_at job_id at) js ≡ true
    → exists (is_cancelled_at job_id at) ks ≡ true
settled-cancelled job_id now at runs [] [] s h = h
settled-cancelled job_id now at runs (j ∷ js) (k ∷ ks) (inl same, rest) h =
    elim (Bool-cases (is_cancelled_at job_id at j)) [
      | inl own ↦ rw same (or-own _ _ own)
      | inr out ↦ or-true _ _ (settled-cancelled job_id now at runs js ks rest (or-later _ _ out h))
    ]
settled-cancelled job_id now at runs (j ∷ js) (k ∷ ks) (inr settles, rest) h =
    let out : is_cancelled_at job_id at j ≡ false = ground (arith, settles.0) in
    or-true _ _ (settled-cancelled job_id now at runs js ks rest (or-later _ _ out h))
settled-cancelled job_id now at runs [] (k ∷ ks) s h = absurd s
settled-cancelled job_id now at runs (j ∷ js) [] s h = absurd s

-- What a cancel that wins its compare-and-set leaves behind.
pub record Cancelled (job_id now : ℕ) (before after : Db) : Type 0 where
  pub cancelled : exists (is_cancelled_at job_id now) after.jobs ≡ true
  pub well_formed : IsWellFormed after
  pub stopped : IsStopped job_id after
  pub running_kept :
      select (λ (r : JobRun). is_running r.status) after.runs
      ≡ select (λ (r : JobRun). is_running r.status) before.runs
  pub inactive : count (is_active_job job_id) after.jobs ≡ 0

settled-IsWellFormed :
    (now : ℕ) (db db' : Db) → OnlySettles now db db' → IsWellFormed db → IsWellFormed db'
settled-IsWellFormed now db db' s w = record {
  fresh = rw (s.runs, s.next_run_id) w.fresh;
  one_id = rw s.runs w.one_id;
  told = rw (s.runs, s.events) w.told;
  one_executing = rw s.runs w.one_executing;
  one_trigger = rw s.runs w.one_trigger;
  one_tick = rw s.runs w.one_tick;
}

settled-Cancelled :
    (now at job_id : ℕ) (before db db' : Db)
    → Cancelled job_id at before db
    → OnlySettles now db db'
    → Cancelled job_id at before db'
settled-Cancelled now at job_id before db db' c s = record {
  cancelled = settled-cancelled job_id now at db.runs db.jobs db'.jobs s.jobs c.cancelled;
  well_formed = settled-IsWellFormed now db db' s c.well_formed;
  stopped = rw s.runs c.stopped;
  running_kept = rw s.runs c.running_kept;
  inactive = omega (
    arith,
    count-settled now db.runs (is_active_job job_id) (λ j h. ground arith) db.jobs db'.jobs s.jobs,
    c.inactive,
  );
}

-- A cancel that wins its compare-and-set returns, its cascade included, when `fuel` is above the
-- number of active jobs. It keeps the invariant, leaves the job no claimable run, leaves every
-- RUNNING run as it was, and leaves the job no longer active.
pub cancel_active-Cancelled :
    (fuel now job_id : ℕ) (db : Db)
    → IsWellFormed db
    → IsKeyed db
    → actives db < fuel
    → exists (is_active_job job_id) db.jobs ≡ true
    → Returns (Cancelled job_id now db) (cancel_active fuel now job_id db)
unfolding cancel_active
cancel_active-Cancelled fuel now job_id db w keyed lt there =
    let rest = select (λ (r : JobRun). r.job_id == job_id) db.runs in
    let db_1 = update_jobs (is_active_job job_id) (cancel_state now) db in
    let db_2 = cancel_runs now job_id rest db_1 in
    let jobs_same = cancel_runs-jobs now job_id rest db_1 in
    let snaps = snapshots (λ (r : JobRun). r.job_id == job_id) db_1 w.one_id in
    let done : Cancelled job_id now db db_2 = record {
      cancelled = rw jobs_same (exists-cancelled job_id now db.jobs there);
      well_formed = cancel_runs-IsWellFormed now job_id rest db_1 snaps (rejob-IsWellFormed db _ w);
      stopped = cancel_runs-IsStopped now job_id rest db_1 snaps (all_left job_id db.runs);
      running_kept = cancel_runs-running now job_id rest db_1 snaps;
      inactive = rw jobs_same (count-cancelled job_id now db.jobs);
    } in
    Returns-map (OnlySettles now db_2) (Cancelled job_id now db)
      (settle_downstreams fuel now job_id db_2)
      (λ db_3 s. settled-Cancelled now now job_id db db_2 db_3 done s)
      (settle_downstreams-OnlySettles fuel now job_id db_2
        (λ k. rw jobs_same (omega (arith, keyed_after k, keyed k)))
        (rw jobs_same (omega (arith, actives_after, lt))))
  where
    keyed_after :
        (k : ℕ)
        → count (job_of k) (update (is_active_job job_id) (cancel_state now) db.jobs)
          ≤ count (job_of k) db.jobs
    keyed_after k =
        count-update-le (is_active_job job_id) (cancel_state now) (job_of k) db.jobs
          (All-intro db.jobs (λ j. ground arith))

    actives_after :
        count
          (λ (j : Job). is_active j.state)
          (update (is_active_job job_id) (cancel_state now) db.jobs)
        ≤ actives db
    actives_after =
        count-update-le (is_active_job job_id) (cancel_state now) (λ (j : Job). is_active j.state)
          db.jobs (All-intro db.jobs (λ j. ground arith))
