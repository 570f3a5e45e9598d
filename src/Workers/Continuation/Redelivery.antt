-- ===== src/Workers/Continuation/Redelivery.antt =====
-- app/workers/recurring_watcher.py: an event that is delivered again.
use task_scheduler_mcp.Workers.Continuation.{
  is_active_downstream, each_job, triggers_on, materialize_downstreams, materialize_one,
}
use task_scheduler_mcp.Store.{executes, same_trigger, Db, Job, JobRun, RunEvent}
use task_scheduler_mcp.Jobs.Settle.Settled.{Returns}
use task_scheduler_mcp.Materializer.Once.{materialize_downstream-once}
use task_scheduler_mcp.Store.Session.{◌>>=◌, pure, Result, Session, ok, err, try_nested}
use task_scheduler_mcp.Common.{
  ℕ, ◌≡◌, refl, ◌∙◌, inl, inr, true, List, [], ◌∷◌, Bool-cases, select, exists, All,
}

-- The downstream job has its run for the event's run, if its trigger matches the event.
abbrev HasFired : RunEvent → List JobRun → Job → Type 0
HasFired event runs j =
    triggers_on j.trigger_on_status event.event_type ≡ true
    → exists (same_trigger j.job_id event.run_id) runs ≡ true

materialize_one-once :
    (now : ℕ) (event : RunEvent) (downstream : Job) (db : Db)
    → HasFired event db.runs downstream
    → Returns (λ db'. db'.runs ≡ db.runs) (materialize_one now event downstream db)
unfolding materialize_one
materialize_one-once now event downstream db fired =
    elim (Bool-cases (triggers_on downstream.trigger_on_status event.event_type)) [
      | inr miss ↦ rw miss refl
      | inl match_ ↦ elim (Bool-cases (exists (executes downstream.job_id) db.runs)) [
        | inl busy ↦
            rw
              (
                match_,
                try_nested,
                ◌>>=◌,
                materialize_downstream-once now downstream event.run_id event.occurred_at db
                    (fired match_),
                busy,
              )
              refl
        | inr idle ↦
            rw
              (
                match_,
                try_nested,
                ◌>>=◌,
                materialize_downstream-once now downstream event.run_id event.occurred_at db
                    (fired match_),
                idle,
              )
              refl
      ]
    ]

Returns-then :
    {A B : Type 0} (P Q : Db → Type 0) (m : Session A) (f : A → Session B) (db : Db)
    → Returns P (m db)
    → ((a : A) (db' : Db) → P db' → Returns Q (f a db'))
    → Returns Q ((m >>= f) db)
Returns-then {A} {B} P Q m f db h next = go (m db) h
  where
    go :
        (r : Result (A × Db))
        → Returns P r
        → Returns Q (elim r [ ok (a, db') ↦ f a db' | err e ↦ err e ])
    go (ok (a, db')) p = next a db' p
    go (err e) p = absurd p

each_job-once :
    (now : ℕ) (event : RunEvent) (jobs : List Job) (runs : List JobRun) (db : Db)
    → db.runs ≡ runs
    → All (HasFired event runs) jobs
    → Returns (λ db'. db'.runs ≡ runs) (each_job (materialize_one now event) jobs db)
each_job-once now event [] runs db same fired = same
each_job-once now event (j ∷ js) runs db same fired =
    Returns-then (λ db'. db'.runs ≡ db.runs) (λ db'. db'.runs ≡ runs) (materialize_one now event j)
      (λ _. each_job (materialize_one now event) js) db
      (materialize_one-once now event j db (rw same fired.0))
      (λ a db' kept. each_job-once now event js runs db' (kept ∙ same) fired.1)

-- An event that is delivered again creates no run: where every active downstream job that the event
-- triggers already has its run for the event's run, in any status, the materialisation returns and
-- leaves the runs as they were.
pub materialize_downstreams-once :
    (now : ℕ) (event : RunEvent) (db : Db)
    → All (HasFired event db.runs) (select (is_active_downstream event.job_id) db.jobs)
    → Returns (λ db'. db'.runs ≡ db.runs) (materialize_downstreams now event db)
unfolding materialize_downstreams
materialize_downstreams-once now event db fired =
    let jobs = select (is_active_downstream event.job_id) db.jobs in
    Returns-then (λ db'. db'.runs ≡ db.runs) (λ db'. db'.runs ≡ db.runs)
      (each_job (materialize_one now event) jobs) (λ _. pure jobs) db
      (each_job-once now event jobs db.runs db refl fired) (λ a db' kept. kept)
