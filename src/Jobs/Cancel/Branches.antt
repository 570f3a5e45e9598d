-- ===== src/Jobs/Cancel/Branches.antt =====
-- `cancel_job` of app/domain/jobs.py on every branch.
use task_scheduler_mcp.Common.{
  insert_by, ℕ, ◌≤◌, ◌<◌, String, ◌≡◌, refl, sym, ◌≢◌, ◌⊎◌, inl, inr, Bool, true, false, Option,
  none, some, List, [], ◌∷◌, arith, leb, ◌==◌, ==_iff, ==-self, Bool-cases, Option-cases, head?,
  select, exists, order_by, Has, Has-select, head?-Has, select-Has, Has-order_by, order_by-Has,
}
use task_scheduler_mcp.Jobs.Cancel.{
  cancel_job, cancel_active, cancel_by_state, cancel_cas, cancel_lost, cancelled_view,
  terminal_status_hint,
}
use task_scheduler_mcp.Jobs.Cancel.Stopping.{Cancelled, cancel_active-Cancelled}
use task_scheduler_mcp.Jobs.Settle.{is_active_job}
use task_scheduler_mcp.Jobs.Settle.Settled.{Returns, IsKeyed, actives}
use task_scheduler_mcp.Jobs.View.{JobView, find_own_job, newest_runs}
use task_scheduler_mcp.Store.{Db, Job, JobState, JobRun, RunStatus}
use task_scheduler_mcp.Store.WellFormed.{IsWellFormed}
use task_scheduler_mcp.Store.Session.{
  Result, ok, err, job_not_found, invalid_state, no_result_found, find_job, pure,
}

-- The compare-and-set of a job that was read as active finds no active row.
abbrev pub IsLost : Job → Db → Type 0
IsLost job seen =
    (job.state ≡ JobState.active) × (exists (is_active_job job.job_id) seen.jobs ≡ false)

abbrev is_cancelled : Option Job → Bool
is_cancelled none = false
is_cancelled (some job) = elim job.state [ JobState.cancelled ↦ true | _ ↦ false ]

-- The instant by which a run counts as the latest.
abbrev pub last_at : JobRun → ℕ
last_at r = elim r.start_at [ some t ↦ t | none ↦ r.scheduled_at ]

-- The status of a run of the job that no other run of the job is later than; SUCCEEDED where the job
-- has no run.
abbrev pub IsLastStatus : ℕ → Db → RunStatus → Type 0
IsLastStatus job_id db status =
    ((status ≡ RunStatus.succeeded) × ((r : JobRun) → Has r db.runs → r.job_id ≢ job_id))
    ⊎ ((r : JobRun) × Has r db.runs
        × (r.job_id ≡ job_id)
        × (r.status ≡ status)
        × ((x : JobRun) → Has x db.runs → x.job_id ≡ job_id → last_at x ≤ last_at r))

abbrev newest_first : JobRun → JobRun → Bool
newest_first a b = leb (last_at b) (last_at a)

-- The run in front after an insertion is as late as the one before it and as the new one.
front :
    (y : JobRun) (zs : List JobRun) (r : JobRun)
    → head? (insert_by newest_first y zs) ≡ some r
    → (last_at y ≤ last_at r) × ((s : JobRun) → head? zs ≡ some s → last_at s ≤ last_at r)
front y [] r h = let same : y ≡ r = cc h in (rw same (omega arith), λ s absent. absurd (cc absent))
front y (z ∷ zs) r h = elim (Bool-cases (newest_first y z)) [
  | inl first ↦
      let same : y ≡ r = let e = rw first at h in cc e in
      (
        rw same (omega arith),
        λ s e. let it : z ≡ s = cc e in rw (sym it, sym same) (ground (arith, first)),
      )
  | inr behind ↦
      let same : z ≡ r = let e = rw behind at h in cc e in
      (
        rw (sym same) (ground (arith, behind)),
        λ s e. let it : z ≡ s = cc e in rw (sym it, sym same) (omega arith),
      )
]

no_head : (x : JobRun) (xs : List JobRun) → head? xs ≡ none → Has x xs → ⊥
no_head x [] h there = there
no_head x (y ∷ ys) h there = absurd (cc h)

-- The first run of the order is the latest.
first-latest :
    (runs : List JobRun) (r x : JobRun)
    → head? (order_by newest_first runs) ≡ some r
    → Has x runs
    → last_at x ≤ last_at r
first-latest [] r x first h = absurd h
first-latest (y ∷ runs) r x first (inl here) =
    rw here (front y (order_by newest_first runs) r first).0
first-latest (y ∷ runs) r x first (inr later) =
    elim (Option-cases (head? (order_by newest_first runs))) [
      | inl missing ↦
          absurd (
            no_head x (order_by newest_first runs) missing (order_by-Has newest_first x runs later))
      | inr (s, second) ↦
          let below = (front y (order_by newest_first runs) r first).1 s second in
          let under = first-latest runs s x second later in omega (arith, below, under)
    ]

last_status : (job_id : ℕ) (db : Db) → IsLastStatus job_id db (terminal_status_hint job_id db)
unfolding terminal_status_hint newest_runs
last_status job_id db =
    let of_job : List JobRun = select (λ (r : JobRun). r.job_id == job_id) db.runs in
    elim (Option-cases (head? (order_by newest_first of_job))) [
      | inl no_run ↦
          rw (terminal_status_hint, newest_runs, no_run)
            (inl (
              refl,
              λ r there mine. no_head r (order_by newest_first of_job) no_run (
                  order_by-Has newest_first r of_job (
                    select-Has (λ (r : JobRun). r.job_id == job_id) r db.runs there
                      (rw mine (==-self job_id)))),
            ))
      | inr (r, first) ↦
          let own =
            Has-select (λ (r : JobRun). r.job_id == job_id) r db.runs
              (Has-order_by newest_first r of_job
                (head?-Has r (order_by newest_first of_job) first)) in
          rw (terminal_status_hint, newest_runs, first)
            (inr (
              r,
              own.0,
              (==_iff r.job_id job_id).0 own.1,
              refl,
              λ x there mine. first-latest of_job r x first (
                  select-Has (λ (r : JobRun). r.job_id == job_id) x db.runs there
                    (rw mine (==-self job_id))),
            ))
    ]

-- What the caller is told: the job is cancelled, and nothing of its runs.
pub record IsCancelledView (job : Job) (view : JobView) : Type 0 where
  pub same_id : view.job_id ≡ job.job_id
  pub same_action : view.action ≡ job.action
  pub state : view.job_state ≡ JobState.cancelled
  pub no_status : view.latest_run_status ≡ none
  pub no_runs : view.runs ≡ none

told : (job : Job) → IsCancelledView job (cancelled_view job)
told job = record {
  same_id = refl;
  same_action = refl;
  state = refl;
  no_status = refl;
  no_runs = refl;
}

-- How a cancel of a job ends. `seen` is the database that the compare-and-set finds.
abbrev pub Ends : ℕ → Job → Db → Db → Result (JobView × Db) → Type 0
Ends now job before seen (ok (view, after)) =
    IsCancelledView job view
    × (((job.state ≡ JobState.cancelled) × (after ≡ before))
        ⊎ (((job.state ≡ JobState.active) × Cancelled job.job_id now seen after)
            ⊎ (IsLost job seen
                × (is_cancelled (find_job job.job_id seen) ≡ true)
                × (after ≡ seen))))
Ends now job before seen (err (invalid_state hint)) =
    ((job.state ≡ JobState.completed) × IsLastStatus job.job_id before hint)
    ⊎ (IsLost job seen
        × (is_cancelled (find_job job.job_id seen) ≡ false)
        × IsLastStatus job.job_id seen hint)
Ends now job before seen (err no_result_found) = IsLost job seen × (find_job job.job_id seen ≡ none)
Ends now job before seen (err e) = ⊥

-- Nothing of the user has the id, or a job of the user ends as its state says.
abbrev pub Tells : ℕ → String → ℕ → Db → Db → Result (JobView × Db) → Type 0
Tells now user_id job_id before seen r =
    ((find_own_job user_id job_id before ≡ none) × (r ≡ err job_not_found))
    ⊎ ((job : Job) × (find_own_job user_id job_id before ≡ some job) × Ends now job before seen r)

module _ (others : Db → Db) (fuel now : ℕ) (before : Db) (w : IsWellFormed (others before))
    (keyed : IsKeyed (others before)) (enough : actives (others before) < fuel) where
  won :
      (job : Job) (r : Result (Unit {0} × Db))
      → job.state ≡ JobState.active
      → Returns (Cancelled job.job_id now (others before)) r
      → Ends now job before
          (others before)
          (elim r [ ok (a, after) ↦ pure (cancelled_view job) after | err e ↦ err e ])
  won job (ok (a, after)) active done = (told job, inr (inl (active, done)))
  won job (err e) active done = absurd done

  by_fresh :
      (job fresh : Job)
      → IsLost job (others before)
      → find_job job.job_id (others before) ≡ some fresh
      → Ends now job before (others before) (cancel_lost job (others before))
  unfolding cancel_lost
  by_fresh job fresh gone there = go fresh.state refl
    where
      go :
          (s : JobState)
          → fresh.state ≡ s
          → Ends now job before (others before) (cancel_lost job (others before))
      go JobState.cancelled is =
          rw (cancel_lost, there, is) (told job, inr (inr (gone, rw (there, is) refl, refl)))
      go JobState.completed is =
          rw (cancel_lost, there, is)
            (inr (gone, rw (there, is) refl, last_status job.job_id (others before)))
      go JobState.active is =
          rw (cancel_lost, there, is)
            (inr (gone, rw (there, is) refl, last_status job.job_id (others before)))

  lost :
      (job : Job)
      → IsLost job (others before)
      → Ends now job before (others before) (cancel_lost job (others before))
  unfolding cancel_lost
  lost job gone = elim (Option-cases (find_job job.job_id (others before))) [
    | inl missing ↦ rw (cancel_lost, missing) (gone, missing)
    | inr (fresh, there) ↦ by_fresh job fresh gone there
  ]

  ends :
      (job : Job) (s : JobState)
      → job.state ≡ s
      → Ends now job before (others before) (cancel_by_state others fuel now job s before)
  unfolding cancel_by_state cancel_cas
  ends job JobState.cancelled is = (told job, inl (is, refl))
  ends job JobState.completed is = inl (is, last_status job.job_id before)
  ends job JobState.active is =
      elim (Bool-cases (exists (is_active_job job.job_id) (others before).jobs)) [
        | inl there ↦
            rw (cancel_cas, there)
              (won job (cancel_active fuel now job.job_id (others before)) is
                (cancel_active-Cancelled fuel now job.job_id (others before) w keyed enough there))
        | inr gone ↦ rw (cancel_cas, gone) (lost job (is, gone))
      ]

  -- A cancel of a job, whatever other sessions commit before its compare-and-set as long as they
  -- keep the invariant and the unique job ids, ends on each branch as its state says, its cascade
  -- included, with fuel above the number of active jobs: not found where the user has no such job;
  -- for a cancelled job success, and nothing changed; for a completed one INVALID_STATE with the
  -- status of a run of the job that none of its runs is later than, or SUCCEEDED where it has no
  -- run; for an active one success, with the job cancelled at the instant of the cancel, the
  -- invariant kept, no claimable run of the job left and every RUNNING run as it was; where the job
  -- is no longer active at the compare-and-set, success if it was cancelled meanwhile,
  -- INVALID_STATE with that status if not, and an error if the row is gone. On success the view has
  -- the id of the job and the status CANCELLED.
  pub cancel_job-Tells :
      (user_id : String) (job_id : ℕ)
      → Tells now user_id job_id before
          (others before)
          (cancel_job others fuel now user_id job_id before)
  unfolding cancel_job
  cancel_job-Tells user_id job_id = elim (Option-cases (find_own_job user_id job_id before)) [
    | inl missing ↦ rw (cancel_job, missing) (inl (refl, refl))
    | inr (job, found) ↦ rw (cancel_job, found) (inr (job, refl, ends job job.state refl))
  ]
