-- ===== src/Jobs/Create/Outcome.antt =====
-- What a creation that returns has done.
use task_scheduler_mcp.Materializer.{same_cause, same_nonterminal, new_run, materialize_initial}
use task_scheduler_mcp.Jobs.Create.{
  check_arguments, Environment, create_job, new_job, check_chain, insert_job, first_run, create_new,
  find_existing, Plan, NewJob,
}
use task_scheduler_mcp.Store.{executes, JobState, RunStatus, JobRun, Db, Job}
use task_scheduler_mcp.Store.Session.{Session, pure, ◌>>=◌, ◌>>◌}
use task_scheduler_mcp.Store.Ensures.{Ensures, Ensures-after, Ensures-bind}
use task_scheduler_mcp.Jobs.Create.Checks.{check_arguments-ReadsOnly, check_chain-ReadsOnly}
use task_scheduler_mcp.Materializer.Spawning.{spawn_run_lem}
use task_scheduler_mcp.Common.{
  ℕ, ◌+◌, ◌≡◌, refl, ◌⊎◌, inl, inr, ◌||◌, Option, none, some, ◌∷◌, Bool-cases, Option-cases, exists,
}

-- The runs after the creation: a PENDING run of the new job, with no cause, exactly when the job is
-- not chained.
abbrev RunsOf : Option ℕ → Job → Db → Db → Type 0
RunsOf (some trigger) job before after = after.runs ≡ before.runs
RunsOf none job before after =
    (run : JobRun) × (after.runs ≡ run ∷ before.runs)
    × (run.job_id ≡ job.job_id)
    × (run.status ≡ RunStatus.pending)
    × (run.wait_for_run_id ≡ none)

pub record IsCreated (args : NewJob) (before : Db) (job : Job) (after : Db) : Type 0 where
  pub key_free : find_existing args before ≡ none
  pub jobs : after.jobs ≡ job ∷ before.jobs
  pub fresh_id : job.job_id ≡ before.next_job_id
  pub owner : job.user_id ≡ args.user_id
  pub key : job.idempotency_key ≡ args.idempotency_key
  pub state : job.state ≡ JobState.active
  pub runs : RunsOf args.trigger_on_job_id job before after

-- The job with the key that was there already, or the new one.
abbrev pub Creates : NewJob → Db → Job → Db → Type 0
Creates args before job after =
    ((find_existing args before ≡ some job) × (after ≡ before)) ⊎ IsCreated args before job after

module _ (stamp : ℕ) (args : NewJob) (plan : Plan) where
  -- The tables with the new job's row.
  abbrev pub with_job : Job → Db → Db
  with_job job db = record db { jobs = job ∷ db.jobs; next_job_id = db.next_job_id + 1 }

  abbrev RunsLike : Job → Db → Unit {0} → Db → Type 0
  RunsLike job before _ after =
      (after.jobs ≡ job ∷ before.jobs) × RunsOf args.trigger_on_job_id job before after

  spawned-RunsLike :
      (job : Job) (db : Db)
      → Ensures
          (λ (run : JobRun) after.
            (after.jobs ≡ job ∷ db.jobs)
            × ((after.runs ≡ run ∷ db.runs)
                × (run.job_id ≡ job.job_id)
                × (run.status ≡ RunStatus.pending)
                × (run.wait_for_run_id ≡ none)))
          (materialize_initial stamp job plan.run_at (with_job job db))
  unfolding materialize_initial
  spawned-RunsLike job db =
      let new = new_run stamp db.next_run_id job plan.run_at RunStatus.pending none in
      rw (spawn_run_lem stamp job plan.run_at RunStatus.pending none (with_job job db))
        (elim (Bool-cases (exists (executes job.job_id) db.runs)) [
          | inl busy ↦ rw busy tt
          | inr idle ↦
              elim (Bool-cases
                (exists (same_nonterminal new) db.runs || exists (same_cause none new) db.runs)) [
                  | inl double ↦ rw (idle, double) tt
                  | inr single ↦ rw (idle, single) (refl, (refl, refl, refl, refl))
                ]
        ])

  first_run-RunsLike :
      (job : Job) (db : Db)
      → Ensures (RunsLike job db) (first_run stamp args plan job (with_job job db))
  unfolding first_run
  first_run-RunsLike job db = by_trigger args.trigger_on_job_id
    where
      by_trigger :
          (t : Option ℕ)
          → Ensures
              (λ (_ : Unit {0}) after. (after.jobs ≡ job ∷ db.jobs) × RunsOf t job db after)
              (elim t as (λ _. Session (Unit {0})) [
                | none ↦ materialize_initial stamp job plan.run_at >>= λ _. pure tt
                | some trigger ↦ pure tt
              ]
                (with_job job db))
      by_trigger none =
          Ensures-bind _ _ (materialize_initial stamp job plan.run_at) (λ _. pure tt)
            (with_job job db) (spawned-RunsLike job db)
            λ run after h. (h.0, (run, h.1.0, h.1.1, h.1.2, h.1.3))
      by_trigger (some trigger) = (refl, refl)

  create_new-Creates :
      (db : Db)
      → find_existing args db ≡ none
      → Ensures (Creates args db) (create_new stamp args plan db)
  unfolding create_new insert_job
  create_new-Creates db free =
      let job = new_job stamp db.next_job_id args plan in
      Ensures-after (Creates args db) (check_chain args) _ db (check_chain-ReadsOnly args) λ _.
        rw (◌>>=◌, ◌>>◌, insert_job, free)
          (Ensures-bind (RunsLike job db) (Creates args db) (first_run stamp args plan job)
            (λ _. pure job) (with_job job db) (first_run-RunsLike job db)
            λ _ after h. inr (record {
              key_free = free;
              jobs = h.0;
              fresh_id = refl;
              owner = refl;
              key = refl;
              state = refl;
              runs = h.1;
            }))

-- A creation that returns names the job that has the key already, and has changed nothing, or a new
-- active job of the user with a fresh id, with one PENDING run exactly when it is not chained.
pub create_job-Creates :
    (env : Environment) (now stamp : ℕ) (args : NewJob) (db : Db)
    → Ensures (Creates args db) (create_job env now stamp args db)
unfolding create_job
create_job-Creates env now stamp args db =
    Ensures-after (Creates args db) (check_arguments env now args) _ db
      (check_arguments-ReadsOnly env now args)
      λ plan. elim (Option-cases (find_existing args db)) [
        | inl free ↦ rw free (create_new-Creates stamp args plan db free)
        | inr (job, found) ↦ rw found (inl (found, refl))
      ]
