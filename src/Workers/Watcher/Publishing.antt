-- ===== src/Workers/Watcher/Publishing.antt =====
-- What a watcher tick does to the tables and to the queue.
use task_scheduler_mcp.Store.Session.{update_runs}
use task_scheduler_mcp.Workers.Executor.Claim.{RunIs}
use task_scheduler_mcp.Store.Batch.{
  add_events-eq, All-picked, is_in, batch-IsWellFormed, run_ids, mem_id,
}
use task_scheduler_mcp.Store.WellFormed.{IsWellFormed}
use task_scheduler_mcp.Workers.Watcher.{
  Entry, entry_of, queue_run, lookahead, is_due, due_runs, queue_runs, claim_and_publish,
}
use task_scheduler_mcp.Store.{second, run_of, EventType, Db, RunStatus, JobRun}
use task_scheduler_mcp.Common.{
  ◌-◌, max, ℕ, ◌+◌, ◌*◌, ◌≤◌, ◌<◌, ◌≡◌, refl, ap, inl, inr, Bool, true, false, not, ◌&&◌, none,
  List, [], ◌∷◌, map, arith, if◌then◌else◌, ==_iff, Bool-cases, length, take, select, All, All-map,
  All-intro, All-select, All-take, length-take, All-update,
}

-- A tick keeps the invariant, whether the queue takes the messages or not.
claim_and_publish-IsWellFormed :
    (now sent_at batch_size : ℕ) (locked : JobRun → Bool) (sends : Bool) (db : Db)
    → IsWellFormed db
    → IsWellFormed (claim_and_publish now sent_at batch_size locked sends db).db
unfolding claim_and_publish
claim_and_publish-IsWellFormed now sent_at batch_size locked sends db w =
    let g : JobRun → Bool = λ r. is_due now r && not (locked r) in
    batch-IsWellFormed now EventType.queued RunStatus.pending RunStatus.queued (λ r. none)
      (queue_run now) (due_runs now batch_size locked db) db
      (λ r. record { run_id = refl; job_id = refl; scheduled_at = refl; wait_for_run_id = refl })
      (λ r. refl) w
      (All-map db.runs (λ r picked of_batch _. ground (arith, picked of_batch))
        (All-picked g batch_size db w.one_id))

-- A tick takes at most `batch_size` runs, each PENDING, due within the lookahead and unlocked, and
-- says how many it took.
due_runs_lem :
    (now sent_at batch_size : ℕ) (locked : JobRun → Bool) (sends : Bool) (db : Db)
    → (length (due_runs now batch_size locked db) ≤ batch_size)
      × ((claim_and_publish now sent_at batch_size locked sends db).claimed
          ≡ length (due_runs now batch_size locked db))
      × All
          (λ (r : JobRun).
            (r.status ≡ RunStatus.pending)
            × (r.scheduled_at < now + lookahead)
            × (locked r ≡ false))
          (due_runs now batch_size locked db)
unfolding claim_and_publish
due_runs_lem now sent_at batch_size locked sends db =
    let g : JobRun → Bool = λ r. is_due now r && not (locked r) in
    (
      length-take batch_size (select g db.runs),
      refl,
      All-map (take batch_size (select g db.runs))
          (λ r h. (ground arith, ground arith, ground arith))
          (All-take (λ r. g r ≡ true) batch_size (select g db.runs) (All-select g db.runs)),
    )

abbrev pub is_queued : RunStatus → Bool
is_queued RunStatus.queued = true
is_queued _ = false

queued_row :
    (now k : ℕ) (runs : List JobRun) (r : JobRun)
    → mem_id k (run_ids runs) ≡ true
    → run_of k (if is_in (run_ids runs) r then queue_run now r else r) ≡ true
    → is_queued (if is_in (run_ids runs) r then queue_run now r else r).status ≡ true
queued_row now k runs r taken of_run = elim (Bool-cases (is_in (run_ids runs) r)) [
  | inl picked ↦ rw picked
  | inr absent ↦
      let same : r.run_id ≡ k = (==_iff r.run_id k).0 (rw absent at of_run) in
      cc (taken, absent, ap (λ i. mem_id i (run_ids runs)) same)
]

-- A row of the committed table, for a run that the batch took.
queued_rows :
    (now k : ℕ) (runs : List JobRun) (db : Db)
    → mem_id k (run_ids runs) ≡ true
    → RunIs is_queued k (queue_runs now runs db)
unfolding queue_runs
queued_rows now k runs db taken =
    let db' = update_runs (is_in (run_ids runs)) (queue_run now) db in
    let (next, same) =
      add_events-eq now EventType.queued RunStatus.pending RunStatus.queued (λ r. none) runs db' in
    rw same (
      All-update (is_in (run_ids runs)) (queue_run now) _ db.runs
        (All-intro db.runs (λ r of_run. queued_row now k runs r taken of_run)))

-- The delay stays within the five minutes of the lookahead. The message shows less than a second
-- before its run's instant, and after that instant, or after `now` where it has passed, by no more
-- than the time that the tick took from reading `now` to the send.
abbrev pub IsTimely : ℕ → ℕ → JobRun → Type 0
IsTimely now sent_at r =
    let shown_at : ℕ = sent_at + (entry_of now r).delay_seconds * second in
    ((entry_of now r).delay_seconds ≤ 300)
    × (r.scheduled_at < shown_at + second)
    × (shown_at ≤ max now r.scheduled_at + (sent_at - now))

timely :
    (now sent_at : ℕ) (r : JobRun)
    → now ≤ sent_at
    → r.scheduled_at < now + lookahead
    → IsTimely now sent_at r
timely now sent_at r after h = (omega arith, omega arith, omega arith)

entries :
    (now : ℕ) (all taken : List JobRun) (db : Db)
    → ((k : ℕ) → mem_id k (run_ids taken) ≡ true → mem_id k (run_ids all) ≡ true)
    → All
        (λ (e : Entry). RunIs is_queued e.run_id (queue_runs now all db))
        (map (entry_of now) taken)
entries now all [] db sub = tt
entries now all (r ∷ rs) db sub = (
  queued_rows now r.run_id all db (sub r.run_id (ground arith)),
  entries now all rs db (λ k m. sub k (ground (arith, m))),
)

-- Every message that a tick of the watcher sends is for a run that the committed table has as
-- QUEUED; the delay of each run taken is at most 300 seconds, and shows its message less than a
-- second before the run's instant, and after that instant, or after the tick's reading of now where
-- the run was overdue, by no more than the time from that reading to the send.
pub claim_and_publish_sent :
    (now sent_at batch_size : ℕ) (locked : JobRun → Bool) (sends : Bool) (db : Db)
    → now ≤ sent_at
    → let t = claim_and_publish now sent_at batch_size locked sends db in
      All (λ (e : Entry). RunIs is_queued e.run_id t.db) t.sent
      × All (IsTimely now t.sent_at) (due_runs now batch_size locked db)
unfolding claim_and_publish
claim_and_publish_sent now sent_at batch_size locked sends db after =
    let runs = due_runs now batch_size locked db in
    (
      elim sends
          as (λ b.
            All (λ (e : Entry). RunIs is_queued e.run_id (queue_runs now runs db))
              (if b then map (entry_of now) runs else [])) [
                | true ↦ entries now runs runs db (λ k m. m)
                | false ↦ tt
              ],
      All-map runs (λ r h. timely now sent_at r after h.1)
          ((due_runs_lem now sent_at batch_size locked sends db).2),
    )
