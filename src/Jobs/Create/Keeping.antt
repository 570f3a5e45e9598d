-- ===== src/Jobs/Create/Keeping.antt =====
-- A creation keeps the invariant of the tables.
use task_scheduler_mcp.Materializer.Spawning.{spawn_run-IsWellFormed}
use task_scheduler_mcp.Jobs.Create.Checks.{check_arguments-ReadsOnly, check_chain-ReadsOnly}
use task_scheduler_mcp.Store.Session.{pure, ◌>>=◌, Session}
use task_scheduler_mcp.Store.WellFormed.{IsWellFormed}
use task_scheduler_mcp.Store.Keeps.{Keeps-gets, Keeps-pure, Keeps-bind, Keeps}
use task_scheduler_mcp.Store.{RunStatus, is_none, Job}
use task_scheduler_mcp.Materializer.{materialize_initial}
use task_scheduler_mcp.Jobs.Create.{
  new_job, find_existing, create_unless, Environment, Plan, create_job, NewJob, create_new,
  insert_job, first_run,
}
use task_scheduler_mcp.Common.{ℕ, inl, inr, Option, none, some, Bool-cases}

Keeps-first_run :
    (stamp : ℕ) (args : NewJob) (plan : Plan) (job : Job)
    → Keeps IsWellFormed (first_run stamp args plan job)
unfolding first_run materialize_initial
Keeps-first_run stamp args plan job = by_trigger args.trigger_on_job_id
  where
    by_trigger :
        (t : Option ℕ)
        → Keeps IsWellFormed (elim t as (λ _. Session (Unit {0})) [
          | none ↦ materialize_initial stamp job plan.run_at >>= λ _. pure tt
          | some trigger ↦ pure tt
        ])
    by_trigger none =
        Keeps-bind _ _ (spawn_run-IsWellFormed stamp job plan.run_at RunStatus.pending none)
          λ _. Keeps-pure tt
    by_trigger (some trigger) = Keeps-pure tt

Keeps-insert_job : (args : NewJob) (job : Job) → Keeps IsWellFormed (insert_job args job)
unfolding insert_job
Keeps-insert_job args job = record {
  at = λ db w. elim (Bool-cases (is_none (find_existing args db))) [
    | inl free ↦ rw free (record {
      fresh = w.fresh;
      one_id = w.one_id;
      told = w.told;
      one_executing = w.one_executing;
      one_trigger = w.one_trigger;
      one_tick = w.one_tick;
    })
    | inr taken ↦ rw taken tt
  ];
}

Keeps-create_new :
    (stamp : ℕ) (args : NewJob) (plan : Plan) → Keeps IsWellFormed (create_new stamp args plan)
unfolding create_new
Keeps-create_new stamp args plan = Keeps-bind _ _ (check_chain-ReadsOnly args IsWellFormed) λ _.
    Keeps-bind _ _ (Keeps-gets (λ db. db.next_job_id)) λ job_id.
      let job = new_job stamp job_id args plan in
      Keeps-bind _ _ (Keeps-insert_job args job)
        λ _. Keeps-bind _ _ (Keeps-first_run stamp args plan job) λ _. Keeps-pure job

Keeps-create_unless :
    (stamp : ℕ) (args : NewJob) (plan : Plan) (existing : Option Job)
    → Keeps IsWellFormed (create_unless stamp args plan existing)
unfolding create_unless create_new
Keeps-create_unless stamp args plan none = Keeps-create_new stamp args plan
Keeps-create_unless stamp args plan (some job) = Keeps-pure job

-- A creation, on every branch, keeps the tables well formed.
pub create_job-IsWellFormed :
    (env : Environment) (now stamp : ℕ) (args : NewJob)
    → Keeps IsWellFormed (create_job env now stamp args)
unfolding create_job
create_job-IsWellFormed env now stamp args =
    Keeps-bind _ _ (check_arguments-ReadsOnly env now args IsWellFormed) λ plan.
      Keeps-bind _ _ (Keeps-gets (find_existing args))
        λ existing. Keeps-create_unless stamp args plan existing
