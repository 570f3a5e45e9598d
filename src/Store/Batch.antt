-- ===== src/Store/Batch.antt =====
-- Statements over a batch of runs that one SELECT has picked.
use task_scheduler_mcp.Store.WellFormed.{update-IsWellFormed, IsWellFormed, SameKeys}
use task_scheduler_mcp.Store.Replay.{replay}
use task_scheduler_mcp.Store.Session.{update_runs, add_event}
use task_scheduler_mcp.Common.{
  ℕ, zero, suc, ◌≤◌, ◌≡◌, refl, inl, inr, Bool, true, false, ◌&&◌, ◌||◌, Option, some, List, [],
  ◌∷◌, map, arith, ◌==◌, if◌then◌else◌, ==-self, Bool-cases, take, select, exists, count, All,
  All-map, All-only_one,
}
use task_scheduler_mcp.Store.{is_executing, EventData, RunStatus, Db, run_of, EventType, JobRun}

abbrev pub mem_id : ℕ → List ℕ → Bool
mem_id k [] = false
mem_id k (i ∷ is) = i == k || mem_id k is

abbrev pub run_ids : List JobRun → List ℕ
run_ids runs = map (λ (r : JobRun). r.run_id) runs

-- `JobRun.run_id.in_(run_ids)`
abbrev pub is_in : List ℕ → JobRun → Bool
is_in ids r = mem_id r.run_id ids

-- One event of the same kind for each run, in order.
abbrev pub add_events :
    ℕ → EventType → RunStatus → RunStatus → (JobRun → Option EventData) → List JobRun → Db → Db
add_events now event_type status_from status_to data_of [] db = db
add_events now event_type status_from status_to data_of (r ∷ rs) db =
    add_events now event_type status_from status_to data_of rs (
      add_event now r.run_id r.job_id event_type (some status_from) (some status_to) (data_of r) db)

module _ (now : ℕ) (t : EventType) (from to : RunStatus) (data_of : JobRun → Option EventData) where
  -- The events of a batch tell one status of each run in it, and nothing of any other.
  pub replay-add_events :
      (k : ℕ) (runs : List JobRun) (db : Db)
      → replay k (add_events now t from to data_of runs db).events
        ≡ (if mem_id k (run_ids runs) then some to else replay k db.events)
  replay-add_events k [] db = refl
  replay-add_events k (r ∷ rs) db = ground (
    arith,
    replay-add_events k rs (add_event now r.run_id r.job_id t (some from) (some to) (data_of r) db),
  )

  -- They write nothing but the outbox.
  pub add_events-eq :
      (runs : List JobRun) (db : Db)
      → (next_event_id : ℕ) × (add_events now t from to data_of runs db ≡ record db {
        events = (add_events now t from to data_of runs db).events;
        next_event_id = next_event_id;
      })
  add_events-eq [] db = (db.next_event_id, refl)
  add_events-eq (r ∷ rs) db =
      add_events-eq rs (add_event now r.run_id r.job_id t (some from) (some to) (data_of r) db)

-- The rows of the table whose ids a SELECT … LIMIT has picked satisfy its test, ids being unique.
pub mem-picked :
    (g : JobRun → Bool) (k n : ℕ) (runs : List JobRun)
    → mem_id k (run_ids (take n (select g runs))) ≡ true
    → exists (λ r. run_of k r && g r) runs ≡ true
mem-picked g k zero runs h = cc
mem-picked g k (suc n) [] h = cc
mem-picked g k (suc n) (r ∷ rs) h = elim (Bool-cases (g r)) [
  | inl good ↦ ground (arith, good, h, mem-picked g k n rs)
  | inr bad ↦ ground (arith, bad, h, mem-picked g k (suc n) rs)
]

All-diagonal :
    (c : ℕ → Bool) (g : JobRun → Bool) (runs : List JobRun)
    → ((k : ℕ) → c k ≡ true → All (λ (r : JobRun). run_of k r ≡ true → g r ≡ true) runs)
    → All (λ (r : JobRun). c r.run_id ≡ true → g r ≡ true) runs
All-diagonal c g [] h = tt
All-diagonal c g (r ∷ rs) h = (
  λ picked. (h r.run_id picked).0 (==-self r.run_id),
  All-diagonal c g rs (λ k picked. (h k picked).1),
)

pub All-picked :
    (g : JobRun → Bool) (n : ℕ) (db : Db)
    → ((k : ℕ) → count (run_of k) db.runs ≤ 1)
    → All
        (λ (r : JobRun). is_in (run_ids (take n (select g db.runs))) r ≡ true → g r ≡ true)
        db.runs
All-picked g n db one =
    All-diagonal (λ k. mem_id k (run_ids (take n (select g db.runs)))) g db.runs
      (λ k picked. All-only_one (run_of k) g db.runs (one k) (mem-picked g k n db.runs picked))

picked-All :
    (g : JobRun → Bool) (runs picks : List JobRun)
    → ((k : ℕ)
        → mem_id k (run_ids picks) ≡ true
        → All (λ (r : JobRun). run_of k r ≡ true → g r ≡ true) runs)
    → All (λ (s : JobRun). All (λ (r : JobRun). run_of s.run_id r ≡ true → g r ≡ true) runs) picks
picked-All g runs [] h = tt
picked-All g runs (s ∷ ss) h =
    (h s.run_id (ground arith), picked-All g runs ss (λ k m. h k (ground (arith, m))))

-- The rows of each picked id satisfy the test of the SELECT.
pub picked-rows :
    (g : JobRun → Bool) (n : ℕ) (db : Db)
    → ((k : ℕ) → count (run_of k) db.runs ≤ 1)
    → All
        (λ (s : JobRun). All (λ (r : JobRun). run_of s.run_id r ≡ true → g r ≡ true) db.runs)
        (take n (select g db.runs))
picked-rows g n db one =
    picked-All g db.runs (take n (select g db.runs))
      (λ k picked. All-only_one (run_of k) g db.runs (one k) (mem-picked g k n db.runs picked))

count-picked :
    (g q : JobRun → Bool) (n : ℕ) (runs : List JobRun)
    → count q (take n (select g runs)) ≤ count q runs
count-picked g q zero runs = omega arith
count-picked g q (suc n) [] = omega arith
count-picked g q (suc n) (r ∷ rs) = elim (Bool-cases (g r)) [
  | inl good ↦ rw good (omega (arith, count-picked g q n rs))
  | inr bad ↦ rw bad (omega (arith, count-picked g q (suc n) rs))
]

-- No run id stands twice.
abbrev pub AreDistinct : List JobRun → Type 0
AreDistinct [] = Unit
AreDistinct (r ∷ rs) = (count (run_of r.run_id) rs ≡ 0) × AreDistinct rs

distinct_once : (rs : List JobRun) → ((k : ℕ) → count (run_of k) rs ≤ 1) → AreDistinct rs
distinct_once [] one = tt
distinct_once (r ∷ rs) one =
    (ground (arith, one r.run_id, ==-self r.run_id), distinct_once rs (λ k. ground (arith, one k)))

pub picked-AreDistinct :
    (g : JobRun → Bool) (n : ℕ) (db : Db)
    → ((k : ℕ) → count (run_of k) db.runs ≤ 1)
    → AreDistinct (take n (select g db.runs))
picked-AreDistinct g n db one =
    distinct_once (take n (select g db.runs))
      (λ k. omega (arith, count-picked g (run_of k) n db.runs, one k))

-- A bulk UPDATE of the status of picked runs, with an event for each, keeps the invariant.
pub batch-IsWellFormed :
    (now : ℕ) (t : EventType) (from to : RunStatus) (data_of : JobRun → Option EventData)
    (f : JobRun → JobRun) (runs : List JobRun) (db : Db)
    → ((r : JobRun) → SameKeys r (f r))
    → ((r : JobRun) → (f r).status ≡ to)
    → IsWellFormed db
    → All
        (λ (r : JobRun).
          is_in (run_ids runs) r ≡ true → is_executing to ≡ true → is_executing r.status ≡ true)
        db.runs
    → IsWellFormed (add_events now t from to data_of runs (update_runs (is_in (run_ids runs)) f db))
batch-IsWellFormed now t from to data_of f runs db keys sets w calm =
    let db' = update_runs (is_in (run_ids runs)) f db in
    let (next, same) = add_events-eq now t from to data_of runs db' in
    rw same (
      update-IsWellFormed (is_in (run_ids runs)) f keys db _ next w
        (All-map db.runs (λ r h. ground (arith, sets r, h)) calm)
        (All-map db.runs
          (λ r h. ground (arith, sets r, replay-add_events now t from to data_of r.run_id runs db'))
          w.told))
