-- ===== src/Workers/Continuation/Keeping.antt =====
-- What the continuation consumer keeps: whatever its writes keep.
use task_scheduler_mcp.Common.{
  ℕ, zero, suc, ◌-◌, String, ◌≡◌, refl, inl, inr, Bool, true, false, not, Option, none, some, List,
  [], ◌∷◌, map, Bool-cases, update,
}
use task_scheduler_mcp.Materializer.{Calendar, materialize_successor, next_after, spawn_run}
use task_scheduler_mcp.Workers.Continuation.{
  find_run_of, may_fire, triggers_on, successor_of, downstreams_of, audit, on_skip, each_event,
  process_event, materialize_downstreams, each_job, materialize_one,
  materialize_recurring_successor, void, stamp, event_of, is_terminal_event,
}
use task_scheduler_mcp.Store.Keeps.{
  Keeps-or_raise, Keeps-try_nested, Keeps-if, Keeps-gets, Keeps-modify, Keeps-bind, Keeps-pure,
  Keeps-raise, Keeps,
}
use task_scheduler_mcp.Jobs.Settle.{
  downstream_ids, complete, is_active_job, is_exhausted, settle_with, each, settle_check,
}
use task_scheduler_mcp.Store.Session.{
  no_result_found, cron_error, integrity_error, concurrency_error, find_job, Error, pure, gets,
  update_jobs, modify, recursion_error, Session, add_event,
}
use task_scheduler_mcp.Store.{
  predicate_miss, slow_consumer, EventData, RunStatus, is_none, JobRun, EventType, Job, RunEvent,
  Db, DateTime,
}

-- A property of the tables that each kind of write of the consumer keeps.
pub record IsKept (P : Db → Type 0) : Type 0 where
  pub spawns :
      (now : ℕ) (job : Job) (run_at : DateTime) (status : RunStatus) (cause : Option ℕ)
      → Keeps P (spawn_run now job run_at status cause)
  pub audits :
      (now : ℕ) (event : RunEvent) (t : EventType) (document : EventData)
      → is_terminal_event t ≡ false
      → (db : Db) → P db
      → P (add_event now event.run_id event.job_id t none none (some document) db)
  pub jobs : (db : Db) (jobs : List Job) → P db → P (record db { jobs = jobs })
  pub stamps :
      (now event_id : ℕ) (db : Db)
      → P db
      → P (record db { events = update (event_of event_id) (stamp now) db.events })

module _ (P : Db → Type 0) (kept : IsKept P) where
  each-Keeps :
      (check : ℕ → Session Bool)
      → ((k : ℕ) → Keeps P (check k))
      → (ks : List ℕ) → Keeps P (each check ks)
  each-Keeps check h [] = Keeps-pure tt
  each-Keeps check h (k ∷ ks) =
      Keeps-bind (check k) (λ _. each check ks) (h k) (λ _. each-Keeps check h ks)

  settle_with-Keeps :
      (check : ℕ → Session Bool) (now k : ℕ)
      → ((i : ℕ) → Keeps P (check i))
      → Keeps P (settle_with check now k)
  settle_with-Keeps check now k h = record {
    at = λ db w. elim (Bool-cases (is_exhausted k db)) [
      | inr same ↦ rw same w
      | inl done ↦ rw done (
          (Keeps-bind (modify (update_jobs (is_active_job k) (complete now))) _
              (Keeps-modify (update_jobs (is_active_job k) (complete now))
                (λ db' w'. kept.jobs db' _ w'))
              (λ _. Keeps-bind (gets (downstream_ids k)) _ (Keeps-gets (downstream_ids k)) (λ ids.
                Keeps-bind (each check ids) (λ _. pure true) (each-Keeps check h ids)
                  (λ _. Keeps-pure true)))).at
            db w)
    ];
  }

  settle_check-Keeps : (fuel now k : ℕ) → Keeps P (settle_check fuel now k)
  unfolding settle_check
  settle_check-Keeps zero now k = Keeps-raise recursion_error
  settle_check-Keeps (suc fuel) now k =
      settle_with-Keeps (settle_check fuel now) now k (settle_check-Keeps fuel now)

  Keeps-void : {A : Type 0} (m : Session A) → Keeps P m → Keeps P (void m)
  Keeps-void m h = Keeps-bind m (λ _. pure tt) h (λ _. Keeps-pure tt)

  Keeps-on_skip : (slow : Session (Unit {0})) (e : Error) → Keeps P slow → Keeps P (on_skip slow e)
  Keeps-on_skip slow concurrency_error h = h
  Keeps-on_skip slow integrity_error h = Keeps-pure tt
  Keeps-on_skip slow e h = Keeps-raise _

  audit-Keeps :
      (now : ℕ) (event : RunEvent) (t : EventType) (j : EventData)
      → is_terminal_event t ≡ false
      → Keeps P (audit now event t j)
  audit-Keeps now event t j other = Keeps-modify _ (kept.audits now event t j other)

  Keeps-next_after :
      (calendar : Calendar) (expr tz : String) (ref : ℕ) → Keeps P (next_after calendar expr tz ref)
  unfolding next_after
  Keeps-next_after calendar expr tz ref =
      Keeps-or_raise (calendar.get_next expr tz (ref - 1)) cron_error

  materialize_successor-Keeps :
      (calendar : Calendar) (now : ℕ) (job : Job) (prev : JobRun) (at : ℕ)
      → Keeps P (materialize_successor calendar now job prev at)
  unfolding materialize_successor
  materialize_successor-Keeps calendar now job prev at =
      Keeps-bind _ _ (Keeps-or_raise job.cron_expr cron_error) λ expr.
        Keeps-bind _ _ (Keeps-next_after calendar expr _ _)
          λ run_at. kept.spawns now job run_at RunStatus.pending none

  recurring-Keeps :
      (calendar : Calendar) (now : ℕ) (event : RunEvent) (job : Job)
      → Keeps P (materialize_recurring_successor calendar now event job)
  unfolding materialize_recurring_successor
  recurring-Keeps calendar now event job =
      Keeps-if (not (is_none job.cancelled_at)) _ _ (Keeps-pure tt) (
        Keeps-bind _ _ (Keeps-gets (find_run_of event.run_id job.job_id)) λ found.
          Keeps-bind _ _ (Keeps-or_raise found no_result_found) λ prev.
            Keeps-try_nested _ (on_skip (pure tt))
              (Keeps-void _ (materialize_successor-Keeps calendar now job prev event.occurred_at))
              (λ e. Keeps-on_skip (pure tt) e (Keeps-pure tt)))

  materialize_one-Keeps :
      (now : ℕ) (event : RunEvent) (j : Job) → Keeps P (materialize_one now event j)
  unfolding materialize_one
  materialize_one-Keeps now event j =
      Keeps-if (triggers_on j.trigger_on_status event.event_type) _ _
        (Keeps-try_nested _
          (on_skip (
            audit now event EventType.chain_skipped_slow_consumer
              (slow_consumer j.job_id event.event_type)))
          (Keeps-void _ (kept.spawns now j _ RunStatus.pending (some event.run_id)))
          (λ e. Keeps-on_skip _ e (
            audit-Keeps now event EventType.chain_skipped_slow_consumer
              (slow_consumer j.job_id event.event_type) refl)))
        (audit-Keeps now event EventType.chain_skipped_predicate_miss
          (predicate_miss j.job_id j.trigger_on_status event.event_type) refl)

  each_job-Keeps :
      (f : Job → Session (Unit {0}))
      → ((j : Job) → Keeps P (f j))
      → (js : List Job) → Keeps P (each_job f js)
  each_job-Keeps f h [] = Keeps-pure tt
  each_job-Keeps f h (j ∷ js) =
      Keeps-bind (f j) (λ _. each_job f js) (h j) (λ _. each_job-Keeps f h js)

  downstreams-Keeps :
      (now : ℕ) (event : RunEvent) (upstream : Option Job)
      → Keeps P (downstreams_of now event upstream)
  unfolding materialize_downstreams
  downstreams-Keeps now event upstream =
      Keeps-if (may_fire upstream) _ _
        (Keeps-bind _ _ (Keeps-gets _) λ js.
          Keeps-bind _ _
            (each_job-Keeps (materialize_one now event) (materialize_one-Keeps now event) js)
            λ _. Keeps-pure js)
        (Keeps-pure [])

  successor_of-Keeps :
      (calendar : Calendar) (now : ℕ) (event : RunEvent) (upstream : Option Job)
      → Keeps P (successor_of calendar now event upstream)
  successor_of-Keeps calendar now event none = Keeps-pure tt
  successor_of-Keeps calendar now event (some job) =
      Keeps-if (is_none job.cron_expr) _ _ (Keeps-pure tt) (recurring-Keeps calendar now event job)

  process_event-Keeps :
      (calendar : Calendar) (fuel now : ℕ) (event : RunEvent)
      → Keeps P (process_event calendar fuel now event)
  unfolding process_event
  process_event-Keeps calendar fuel now event =
      Keeps-bind _ _ (Keeps-gets (find_job event.job_id)) λ upstream.
        Keeps-bind _ _ (successor_of-Keeps calendar now event upstream) λ _.
          Keeps-bind _ _ (downstreams-Keeps now event upstream) λ js.
            Keeps-bind _ _ (settle_check-Keeps fuel now event.job_id) λ _.
              Keeps-bind _ _
                (each-Keeps (settle_check fuel now) (settle_check-Keeps fuel now)
                  (map (λ (j : Job). j.job_id) js))
                λ _. Keeps-modify _ (kept.stamps now event.event_id)

  each_event-Keeps :
      (f : RunEvent → Session (Unit {0}))
      → ((e : RunEvent) → Keeps P (f e))
      → (es : List RunEvent) → Keeps P (each_event f es)
  each_event-Keeps f h [] = Keeps-pure tt
  each_event-Keeps f h (e ∷ es) =
      Keeps-bind (f e) (λ _. each_event f es) (h e) (λ _. each_event-Keeps f h es)

  pub process_events-Keeps :
      (calendar : Calendar) (fuel now : ℕ) (events : List RunEvent)
      → Keeps P (each_event (process_event calendar fuel now) events)
  process_events-Keeps calendar fuel now events =
      each_event-Keeps (process_event calendar fuel now) (process_event-Keeps calendar fuel now)
        events
