-- ===== src/Materializer/Spawning.antt =====
-- Run creation keeps the invariant of the tables.
use task_scheduler_mcp.Store.Keeps.{Keeps}
use task_scheduler_mcp.Store.Session.{◌>>=◌, ◌>>◌, add_event, ok}
use task_scheduler_mcp.Common.{
  ◌||◌, if◌then◌else◌, All-both, ℕ, ◌+◌, ◌≡◌, true, false, Option, some, none, List, [], ◌∷◌, arith,
  All-map, count, refl, ◌==◌, ◌&&◌, Bool-cases, inl, inr, exists, exists-count, All-count-zero,
}
use task_scheduler_mcp.Store.{
  EventType, Db, JobRun, RunEvent, run_of, executes, same_trigger, same_tick,
}
use task_scheduler_mcp.Store.WellFormed.{IsWellFormed}
use task_scheduler_mcp.Materializer.{
  insert_run, integrity_error, same_nonterminal, concurrency_error, err, new_run, RunStatus,
  DateTime, Job, spawn_run, is_none, is_some_id, same_cause,
}

new-trigger :
    (c : Option ℕ) (runs : List JobRun) (new : JobRun) (j u : ℕ)
    → exists (same_cause c new) runs ≡ false
    → ((new.job_id == j) && is_some_id c u) ≡ true
    → count (same_trigger j u) runs ≡ 0
new-trigger none runs new j u single h = absurd (ground arith)
new-trigger (some v) [] new j u single h = refl
new-trigger (some v) (r ∷ rs) new j u single h = ground (arith, new-trigger (some v) rs new j u)

new-tick :
    (c : Option ℕ) (runs : List JobRun) (new : JobRun) (j t : ℕ)
    → exists (same_cause c new) runs ≡ false
    → ((new.job_id == j) && (is_none c && (new.scheduled_at == t))) ≡ true
    → count (same_tick j t) runs ≡ 0
new-tick (some v) runs new j t single h = absurd (ground arith)
new-tick none [] new j t single h = refl
new-tick none (r ∷ rs) new j t single h = ground (arith, new-tick none rs new j t)

-- A new row in front, with its event, keeps the invariant.
insert-IsWellFormed :
    (db : Db) (new : JobRun) (e : RunEvent) (next_event_id : ℕ)
    → IsWellFormed db
    → new.run_id ≡ db.next_run_id
    → e.run_id ≡ new.run_id
    → e.status_to ≡ some new.status
    → exists (executes new.job_id) db.runs ≡ false
    → exists (same_cause new.wait_for_run_id new) db.runs ≡ false
    → IsWellFormed (record db {
      runs = new ∷ db.runs;
      next_run_id = db.next_run_id + 1;
      events = e ∷ db.events;
      next_event_id = next_event_id;
    })
insert-IsWellFormed db new e next_event_id w id about tells idle single = record {
  fresh = (omega arith, All-map db.runs (λ r h. omega arith) w.fresh);
  one_id = λ k. elim (Bool-cases (new.run_id == k)) [
    | inl same ↦ ground (
      arith,
      same,
      All-count-zero (run_of k) (run_of k) db.runs (All-map db.runs (λ r h. ground arith) w.fresh),
    )
    | inr other ↦ ground (arith, other, w.one_id k)
  ];
  told = (
    ground arith,
    All-map db.runs (λ r h. ground (arith, h.0, h.1)) (All-both _ _ db.runs w.fresh w.told),
  );
  one_executing = λ j. ground (arith, w.one_executing j, exists-count (executes j) db.runs);
  one_trigger = λ j u.
      ground (arith, w.one_trigger j u, new-trigger new.wait_for_run_id db.runs new j u single);
  one_tick =
      λ j t. ground (arith, w.one_tick j t, new-tick new.wait_for_run_id db.runs new j t single);
}

-- What `_spawn_run` does: it raises on an executing run, then on a duplicate, and inserts otherwise.
pub spawn_run_lem :
    (now : ℕ) (job : Job) (run_at : DateTime) (status : RunStatus) (cause : Option ℕ) (db : Db)
    → let new = new_run now db.next_run_id job run_at status cause in
      spawn_run now job run_at status cause db ≡ (
        if exists (executes job.job_id) db.runs
        then err concurrency_error
        else if exists (same_nonterminal new) db.runs || exists (same_cause cause new) db.runs
        then err integrity_error
        else ok (
          new,
          add_event now db.next_run_id job.job_id EventType.created none
              (some status)
              none
              (record db { runs = new ∷ db.runs; next_run_id = db.next_run_id + 1 }),
        ))
unfolding spawn_run
spawn_run_lem now job run_at status cause db =
    let new = new_run now db.next_run_id job run_at status cause in
    elim (Bool-cases (exists (executes job.job_id) db.runs)) [
      | inl busy ↦ rw busy
      | inr idle ↦
          elim (Bool-cases
            (exists (same_nonterminal new) db.runs || exists (same_cause cause new) db.runs)) [
              | inl double ↦ rw (idle, double, ◌>>◌, ◌>>=◌, insert_run)
              | inr single ↦ rw (idle, single, ◌>>◌, ◌>>=◌, insert_run)
            ]
    ]

-- A spawned run keeps the invariant, whatever its job, its cause and its instant.
pub spawn_run-IsWellFormed :
    (now : ℕ) (job : Job) (run_at : DateTime) (status : RunStatus) (cause : Option ℕ)
    → Keeps IsWellFormed (spawn_run now job run_at status cause)
spawn_run-IsWellFormed now job run_at status cause = record {
  at = λ db w.
      let new = new_run now db.next_run_id job run_at status cause in
      rw (spawn_run_lem now job run_at status cause db)
        (elim (Bool-cases (exists (executes job.job_id) db.runs)) [
          | inl busy ↦ rw busy tt
          | inr idle ↦
              elim (Bool-cases
                (exists (same_nonterminal new) db.runs || exists (same_cause cause new) db.runs)) [
                  | inl double ↦ rw (idle, double) tt
                  | inr single ↦
                      rw (idle, single)
                        (insert-IsWellFormed db new _ _ w refl refl refl idle
                          (ground (arith, single)))
                ]
        ]);
}
