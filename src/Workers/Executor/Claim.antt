-- ===== src/Workers/Executor/Claim.antt =====
-- `_claim` of app/workers/executor.py: one worker wins a run.
use task_scheduler_mcp.Store.WellFormed.{IsWellFormed}
use task_scheduler_mcp.Workers.Executor.{start_run, claimable, is_claimable, claim}
use task_scheduler_mcp.Store.{Db, run_of, RunStatus, JobRun}
use task_scheduler_mcp.Common.{
  ℕ, ◌≤◌, ◌≡◌, refl, inl, inr, Bool, true, false, List, [], ◌∷◌, arith, if◌then◌else◌, Bool-cases,
  exists, count, All, All-map, All-only_one, All-update,
}

-- Every row of the run has a status that satisfies `g`.
abbrev pub RunIs : (RunStatus → Bool) → ℕ → Db → Type 0
RunIs g run_id db = All (λ (r : JobRun). run_of run_id r ≡ true → g r.status ≡ true) db.runs

abbrev pub is_running : RunStatus → Bool
is_running RunStatus.running = true
is_running _ = false

row_started :
    (now run_id : ℕ) (r : JobRun)
    → (run_of run_id r ≡ true → is_claimable r.status ≡ true)
    → run_of run_id (if claimable run_id r then start_run now r else r) ≡ true
    → is_running (if claimable run_id r then start_run now r else r).status ≡ true
row_started now run_id r open_row = ground arith

-- Every row of a run id is claimable once one is, ids being unique.
pub claimable_rows :
    (run_id : ℕ) (db : Db)
    → count (run_of run_id) db.runs ≤ 1
    → exists (claimable run_id) db.runs ≡ true
    → All (λ (r : JobRun). run_of run_id r ≡ true → is_claimable r.status ≡ true) db.runs
claimable_rows run_id db one h =
    All-only_one (run_of run_id) (λ r. is_claimable r.status) db.runs one h

-- A claim that wins leaves the run RUNNING.
pub claim_won-RunIs :
    (now run_id job_id : ℕ) (db : Db)
    → count (run_of run_id) db.runs ≤ 1
    → (claim now run_id job_id db).0 ≡ true
    → RunIs is_running run_id (claim now run_id job_id db).1
unfolding claim
claim_won-RunIs now run_id job_id db one won =
    elim (Bool-cases (exists (claimable run_id) db.runs)) [
      | inr lost ↦ absurd (ground (arith, lost, won))
      | inl open_rows ↦ rw open_rows (
          All-update (claimable run_id) (start_run now) _ db.runs
            (All-map db.runs (row_started now run_id) (claimable_rows run_id db one open_rows)))
    ]

not_claimable :
    (run_id : ℕ) (runs : List JobRun)
    → All (λ (r : JobRun). run_of run_id r ≡ true → is_running r.status ≡ true) runs
    → exists (claimable run_id) runs ≡ false
not_claimable run_id [] a = refl
not_claimable run_id (r ∷ rs) a = ground (arith, a.0, not_claimable run_id rs a.1)

-- A claim of a RUNNING run changes nothing and loses.
claim_running :
    (now run_id job_id : ℕ) (db : Db)
    → RunIs is_running run_id db
    → claim now run_id job_id db ≡ (false, db)
unfolding claim
claim_running now run_id job_id db h = rw (not_claimable run_id db.runs h)

-- After a claim that wins, a second delivery of the run loses its claim and changes nothing,
-- whatever other sessions commit between the two as long as they leave the run RUNNING.
pub claim_once :
    (now later run_id job_id : ℕ) (between : Db → Db) (db : Db)
    → IsWellFormed db
    → (claim now run_id job_id db).0 ≡ true
    → ((d : Db) → RunIs is_running run_id d → RunIs is_running run_id (between d))
    → let seen = between (claim now run_id job_id db).1 in
      claim later run_id job_id seen ≡ (false, seen)
claim_once now later run_id job_id between db w won keeps =
    claim_running later run_id job_id (between (claim now run_id job_id db).1) (
      keeps (claim now run_id job_id db).1
        (claim_won-RunIs now run_id job_id db (w.one_id run_id) won))
