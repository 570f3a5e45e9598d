-- ===== src/Jobs/Cancel/Flip.antt =====
-- One turn of the loop by which a cancel flips a job's runs.

use task_scheduler_mcp.Store.Replay.{replay}
use task_scheduler_mcp.Store.Batch.{run_ids, mem_id}
use task_scheduler_mcp.Store.WellFormed.{update-IsWellFormed, IsWellFormed}
use task_scheduler_mcp.Store.Session.{update_runs, event_row, add_event}
use task_scheduler_mcp.Workers.Executor.Claim.{is_running}
use task_scheduler_mcp.Jobs.Cancel.{same_row, cancel_status, is_cancellable, same_bucket}
use task_scheduler_mcp.Store.{RunStatus, EventType, RunEvent, run_of, Db, JobRun}
use task_scheduler_mcp.Common.{
  ℕ, ◌+◌, ◌≤◌, ◌≡◌, refl, inl, inr, Bool, true, false, not, ◌&&◌, ◌||◌, none, some, List, [], ◌∷◌,
  arith, ◌==◌, if◌then◌else◌, Bool-cases, &&-left, select, exists, count, All, All-map, All-intro,
  All-both, All-only_one, All-update,
}

-- The rows of a run id in the table, as a snapshot row of it stands for them.
abbrev pub stands_for : JobRun → JobRun → Bool
stands_for s r =
    same_bucket s r
    && ((not (is_cancellable r.status) || is_cancellable s.status)
        && (not (is_running r.status) || is_running s.status))

abbrev pub Snapshot : Db → JobRun → Type 0
Snapshot db s = All (λ (r : JobRun). run_of s.run_id r ≡ true → stands_for s r ≡ true) db.runs

stands_for_self : (s : JobRun) → (run_of s.run_id s && stands_for s s) ≡ true
stands_for_self s = ground arith

selected :
    (p : JobRun → Bool) (runs : List JobRun)
    → All
        (λ (s : JobRun). exists (λ r. run_of s.run_id r && stands_for s r) runs ≡ true)
        (select p runs)
selected p [] = tt
selected p (r ∷ rs) =
    let later : All
        (λ (s : JobRun). exists (λ x. run_of s.run_id x && stands_for s x) (r ∷ rs) ≡ true)
        (select p rs) =
      All-map (select p rs) (λ s h. ground (arith, h)) (selected p rs) in
    elim (Bool-cases (p r)) [
      | inl picked ↦ rw picked (ground (arith, stands_for_self r), later)
      | inr passed ↦ rw passed later
    ]

pub snapshots :
    (p : JobRun → Bool) (db : Db)
    → ((k : ℕ) → count (run_of k) db.runs ≤ 1)
    → All (Snapshot db) (select p db.runs)
snapshots p db one =
    All-map (select p db.runs)
      (λ s h. All-only_one (run_of s.run_id) (stands_for s) db.runs (one s.run_id) h)
      (selected p db.runs)

-- One turn of the loop.
abbrev pub flip : ℕ → ℕ → JobRun → Db → Db
flip now job_id s db =
    if is_cancellable s.status
    then add_event now s.run_id job_id EventType.cancelled (some s.status)
        (some RunStatus.cancelled) none (update_runs (same_row s) cancel_status db)
    else db

flip_row :
    (s : JobRun) (e : RunEvent) (events : List RunEvent) (r : JobRun)
    → e.run_id ≡ s.run_id
    → e.status_to ≡ some RunStatus.cancelled
    → (run_of s.run_id r ≡ true → stands_for s r ≡ true)
    → replay r.run_id events ≡ some r.status
    → replay r.run_id (e ∷ events) ≡ some (if same_row s r then cancel_status r else r).status
flip_row s e events r about tells stands told = elim (Bool-cases (run_of s.run_id r)) [
  | inl mine ↦
      let bucket : same_bucket s r ≡ true = &&-left (same_bucket s r) _ (stands mine) in
      ground (arith, mine, bucket)
  | inr other ↦ ground (arith, other)
]

pub flip-IsWellFormed :
    (now job_id : ℕ) (s : JobRun) (db : Db)
    → Snapshot db s
    → IsWellFormed db
    → IsWellFormed (flip now job_id s db)
flip-IsWellFormed now job_id s db snap w = elim (Bool-cases (is_cancellable s.status)) [
  | inr kept ↦ rw kept w
  | inl flips ↦
      let e =
        event_row now db.next_event_id s.run_id job_id EventType.cancelled (some s.status)
          (some RunStatus.cancelled) none in
      rw flips (
        update-IsWellFormed (same_row s) cancel_status
          (λ r. record {
            run_id = refl;
            job_id = refl;
            scheduled_at = refl;
            wait_for_run_id = refl;
          })
          db (e ∷ db.events) (db.next_event_id + 1) w (All-intro db.runs (λ r. ground arith))
          (All-map db.runs (λ r h. flip_row s e db.events r refl refl h.0 h.1)
            (All-both _ _ db.runs snap w.told)))
]

flip_rows :
    (now job_id : ℕ) (s : JobRun) (db : Db) (Q : JobRun → Type 0)
    → ((r : JobRun) → Q r → Q (cancel_status r))
    → All Q db.runs
    → All Q (flip now job_id s db).runs
flip_rows now job_id s db Q keeps a = elim (Bool-cases (is_cancellable s.status)) [
  | inr kept ↦ rw kept a
  | inl flips ↦ rw flips (
      All-update (same_row s) cancel_status Q db.runs
        (All-map db.runs (λ r q. either r (same_row s r) q) a))
]
  where
    either : (r : JobRun) (b : Bool) → Q r → Q (if b then cancel_status r else r)
    either r true q = keeps r q
    either r false q = q

pub flip-Snapshot :
    (now job_id : ℕ) (s t : JobRun) (db : Db) → Snapshot db t → Snapshot (flip now job_id s db) t
flip-Snapshot now job_id s t db snap =
    flip_rows now job_id s db _ (λ r h of_run. ground (arith, h of_run)) snap

-- The runs of the job that may still be flipped stand in the rest of the loop.
abbrev pub LeftIn : ℕ → List JobRun → List JobRun → Type 0
LeftIn job_id rest runs =
    All
      (λ (r : JobRun).
        (r.job_id == job_id) ≡ true
        → is_cancellable r.status ≡ true
        → mem_id r.run_id (run_ids rest) ≡ true)
      runs

left_row :
    (job_id : ℕ) (s : JobRun) (rest : List JobRun) (r : JobRun)
    → (run_of s.run_id r ≡ true → stands_for s r ≡ true)
    → ((r.job_id == job_id) ≡ true
        → is_cancellable r.status ≡ true
        → mem_id r.run_id (run_ids (s ∷ rest)) ≡ true)
    → is_cancellable s.status ≡ false
    → (r.job_id == job_id) ≡ true
    → is_cancellable r.status ≡ true
    → mem_id r.run_id (run_ids rest) ≡ true
left_row job_id s rest r stands h kept mine open_run =
    let there = h mine open_run in
    elim (Bool-cases (run_of s.run_id r)) [
      | inr other ↦ ground (arith, other, there)
      | inl same ↦ absurd (ground (arith, stands same, kept, open_run))
    ]

flipped_row :
    (job_id : ℕ) (s : JobRun) (rest : List JobRun) (r : JobRun)
    → (run_of s.run_id r ≡ true → stands_for s r ≡ true)
    → ((r.job_id == job_id) ≡ true
        → is_cancellable r.status ≡ true
        → mem_id r.run_id (run_ids (s ∷ rest)) ≡ true)
    → let r' = if same_row s r then cancel_status r else r in
      (r'.job_id == job_id) ≡ true
      → is_cancellable r'.status ≡ true
      → mem_id r'.run_id (run_ids rest) ≡ true
flipped_row job_id s rest r stands h = elim (Bool-cases (same_row s r)) [
  | inl mine ↦ rw mine (λ _ never. cc)
  | inr other ↦ rw other λ of_job open_run.
      let there = h of_job open_run in
      elim (Bool-cases (run_of s.run_id r)) [
        | inr apart ↦ ground (arith, apart, there)
        | inl same ↦
            let bucket : same_bucket s r ≡ true = &&-left (same_bucket s r) _ (stands same) in
            absurd (ground (arith, same, bucket, other))
      ]
]

pub flip-LeftIn :
    (now job_id : ℕ) (s : JobRun) (rest : List JobRun) (db : Db)
    → Snapshot db s
    → LeftIn job_id (s ∷ rest) db.runs
    → LeftIn job_id rest (flip now job_id s db).runs
flip-LeftIn now job_id s rest db snap h = elim (Bool-cases (is_cancellable s.status)) [
  | inr kept ↦
      rw kept (
        All-map db.runs (λ r a. left_row job_id s rest r a.0 a.1 kept)
          (All-both _ _ db.runs snap h))
  | inl flips ↦ rw flips (
      All-update (same_row s) cancel_status _ db.runs (
        All-map db.runs (λ r a. flipped_row job_id s rest r a.0 a.1) (All-both _ _ db.runs snap h)))
]
