-- ===== src/Workers/Reconciler/Recovery.antt =====
-- Whom sweep C recovers, and how.
use task_scheduler_mcp.Store.WellFormed.{IsWellFormed}
use task_scheduler_mcp.Workers.Watcher.{Entry}
use task_scheduler_mcp.Workers.Reconciler.Sweeps.{recovered_other}
use task_scheduler_mcp.Workers.Executor.{fail_run, Registry}
use task_scheduler_mcp.Store.Batch.{mem-picked, picked-AreDistinct, run_ids, mem_id, AreDistinct}
use task_scheduler_mcp.Workers.Executor.Claim.{RunIs}
use task_scheduler_mcp.Workers.Watcher.Publishing.{is_queued}
use task_scheduler_mcp.Workers.Reconciler.{
  reset_runs, orphan_runs, is_idempotent, entry_at_once, is_orphan, reset_run, sweep_running_orphan,
  recover_all, recover_run,
}
use task_scheduler_mcp.Store.{worker_died, run_of, Db, RunStatus, JobRun}
use task_scheduler_mcp.Common.{
  ℕ, ◌≡◌, refl, ◌∙◌, ◌≢◌, inl, inr, Bool, true, false, not, ◌&&◌, List, [], ◌∷◌, map, arith,
  Bool-cases, select, update, exists, count, All, All-intro, All-update,
}

abbrev is_failed : RunStatus → Bool
is_failed RunStatus.failed = true
is_failed _ = false

-- The status that an orphan ends in, by the posture of its action.
abbrev pub is_recovered : Bool → RunStatus → Bool
is_recovered true s = is_queued s
is_recovered false s = is_failed s

written_rows :
    (g : RunStatus → Bool) (k : ℕ) (f : JobRun → JobRun) (runs : List JobRun)
    → ((r : JobRun) → g (f r).status ≡ true)
    → ((r : JobRun) → (f r).run_id ≡ r.run_id)
    → All (λ (r : JobRun). run_of k r ≡ true → g r.status ≡ true) (update (run_of k) f runs)
written_rows g k f runs sets keeps =
    All-update (run_of k) f _ runs (All-intro runs (λ r. ground (arith, sets r, keeps r)))

recover_run-RunIs :
    (now : ℕ) (idempotent : Bool) (s : JobRun) (db : Db)
    → RunIs (is_recovered idempotent) s.run_id (recover_run now idempotent s db)
unfolding recover_run
recover_run-RunIs now true s db =
    written_rows is_queued s.run_id (reset_run now) db.runs (λ r. refl) (λ r. refl)
recover_run-RunIs now false s db =
    written_rows is_failed s.run_id (fail_run now worker_died) db.runs (λ r. refl) (λ r. refl)

-- The rest of the loop leaves the rows of a run that is not in it alone.
recover_all_other :
    (now : ℕ) (idempotent : ℕ → Bool) (g : RunStatus → Bool) (k : ℕ) (rs : List JobRun) (db : Db)
    → count (run_of k) rs ≡ 0
    → RunIs g k db
    → RunIs g k (recover_all now idempotent rs db)
unfolding recover_all
recover_all_other now idempotent g k [] db apart h = h
recover_all_other now idempotent g k (r ∷ rs) db apart h =
    recover_all_other now idempotent g k rs (recover_run now (idempotent r.job_id) r db)
      (ground arith) (recovered_other now k (idempotent r.job_id) g r db (ground arith) h)

recover_all-RunIs :
    (now : ℕ) (idempotent : ℕ → Bool) (rs : List JobRun) (db : Db)
    → AreDistinct rs
    → All
        (λ (r : JobRun).
          RunIs (is_recovered (idempotent r.job_id)) r.run_id (recover_all now idempotent rs db))
        rs
unfolding recover_all
recover_all-RunIs now idempotent [] db apart = tt
recover_all-RunIs now idempotent (r ∷ rs) db apart =
    let db' = recover_run now (idempotent r.job_id) r db in
    (
      recover_all_other now idempotent (is_recovered (idempotent r.job_id)) r.run_id rs db' apart.0
          (recover_run-RunIs now (idempotent r.job_id) r db),
      recover_all-RunIs now idempotent rs db' apart.1,
    )

sent_rows :
    (idempotent sends : ℕ → Bool) (rs : List JobRun) (db : Db)
    → All (λ (r : JobRun). RunIs (is_recovered (idempotent r.job_id)) r.run_id db) rs
    → All
        (λ (e : Entry). RunIs is_queued e.run_id db)
        (map entry_at_once (select (λ (r : JobRun). sends r.run_id) (reset_runs idempotent rs)))
sent_rows idempotent sends [] db a = tt
sent_rows idempotent sends (r ∷ rs) db a = elim (Bool-cases (idempotent r.job_id)) [
  | inr unsafe ↦ rw unsafe (sent_rows idempotent sends rs db a.1)
  | inl safe ↦ elim (Bool-cases (sends r.run_id)) [
    | inr lost ↦ rw (safe, lost) (sent_rows idempotent sends rs db a.1)
    | inl sent ↦ rw (safe, sent) (rw safe at a.0, sent_rows idempotent sends rs db a.1)
  ]
]

-- After sweep C every picked orphan is QUEUED where its action is idempotent and FAILED where it is
-- not, and every message that the sweep sends is for a run that the committed table has as QUEUED.
pub sweep_running_orphan-RunIs :
    (now later grace batch_size : ℕ) (registry : Registry) (locked : JobRun → Bool)
    (sends : ℕ → Bool) (db : Db)
    → IsWellFormed db
    → let (n, db', sent) =
        sweep_running_orphan now later grace batch_size registry locked sends db in
      All
        (λ (r : JobRun). RunIs (is_recovered (is_idempotent registry r.job_id db)) r.run_id db')
        (orphan_runs now grace batch_size locked db)
      × All (λ (e : Entry). RunIs is_queued e.run_id db') sent
unfolding sweep_running_orphan
sweep_running_orphan-RunIs now later grace batch_size registry locked sends db w =
    let runs = orphan_runs now grace batch_size locked db in
    let idempotent = λ (job_id : ℕ). is_idempotent registry job_id db in
    let done =
      recover_all-RunIs later idempotent runs db (
        picked-AreDistinct (λ r. is_orphan now grace r && not (locked r)) batch_size db w.one_id) in
    (done, sent_rows idempotent sends runs (recover_all later idempotent runs db) done)

select-update :
    (k : ℕ) (id : ℕ) (f : JobRun → JobRun) (runs : List JobRun)
    → k ≢ id
    → ((r : JobRun) → (f r).run_id ≡ r.run_id)
    → select (run_of k) (update (run_of id) f runs) ≡ select (run_of k) runs
select-update k id f [] other keeps = refl
select-update k id f (r ∷ rs) other keeps =
    ground (arith, keeps r, select-update k id f rs other keeps)

recover_run-select :
    (now k : ℕ) (idempotent : Bool) (s : JobRun) (db : Db)
    → k ≢ s.run_id
    → select (run_of k) (recover_run now idempotent s db).runs ≡ select (run_of k) db.runs
unfolding recover_run
recover_run-select now k true s db other =
    select-update k s.run_id (reset_run now) db.runs other (λ r. refl)
recover_run-select now k false s db other =
    select-update k s.run_id (fail_run now worker_died) db.runs other (λ r. refl)

recover_all-select :
    (now k : ℕ) (idempotent : ℕ → Bool) (rs : List JobRun) (db : Db)
    → mem_id k (run_ids rs) ≡ false
    → select (run_of k) (recover_all now idempotent rs db).runs ≡ select (run_of k) db.runs
unfolding recover_all
recover_all-select now k idempotent [] db absent = refl
recover_all-select now k idempotent (r ∷ rs) db absent =
    recover_all-select now k idempotent rs (recover_run now (idempotent r.job_id) r db)
      (ground arith)
    ∙ recover_run-select now k (idempotent r.job_id) r db (ground arith)

-- Sweep C leaves the row of a run alone where the run is not RUNNING, where its lease is no older
-- than the grace, or where another transaction holds it.
sweep_running_orphan_live :
    (now later grace batch_size k : ℕ) (registry : Registry) (locked : JobRun → Bool)
    (sends : ℕ → Bool) (db : Db)
    → exists (λ (r : JobRun). run_of k r && (is_orphan now grace r && not (locked r))) db.runs
      ≡ false
    → select
        (run_of k)
        (sweep_running_orphan now later grace batch_size registry locked sends db).1.runs
      ≡ select (run_of k) db.runs
unfolding sweep_running_orphan
sweep_running_orphan_live now later grace batch_size k registry locked sends db live =
    let g : JobRun → Bool = λ r. is_orphan now grace r && not (locked r) in
    let runs = orphan_runs now grace batch_size locked db in
    elim (Bool-cases (mem_id k (run_ids runs))) [
      | inr absent ↦ recover_all-select later k _ runs db absent
      | inl picked ↦ absurd (ground (arith, live, mem-picked g k batch_size db.runs picked))
    ]
