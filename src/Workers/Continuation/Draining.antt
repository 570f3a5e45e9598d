-- ===== src/Workers/Continuation/Draining.antt =====
-- Which events a tick of the consumer leaves to the next one.
use task_scheduler_mcp.Common.{
  exists-order_by, ℕ, ◌≤◌, ◌≡◌, refl, ◌∙◌, inl, inr, Bool, true, false, not, ◌||◌, Option, none,
  some, List, [], ◌∷◌, map, leb, ◌==◌, Bool-cases, length, select, update, exists, count, All,
  All-map,
}
use task_scheduler_mcp.Materializer.{
  Calendar, insert_run, spawn_run, new_run, has_executing_run, same_nonterminal, same_cause,
}
use task_scheduler_mcp.Workers.Continuation.Pending.{
  select-Taken, pending_events-none, pending_events-all, length-pending_of, none-left, Taken,
  none-missed, pending_of, stamp-drains, stamp-quiet, is_pending, IsQuiet,
}
use task_scheduler_mcp.Workers.Continuation.Keeping.{IsKept, process_events-Keeps}
use task_scheduler_mcp.Workers.Continuation.{
  poll_block, poll_once, each_event, process_event, stamp, event_of, successor_of, downstreams_of,
}
use task_scheduler_mcp.Jobs.Settle.{each, settle_check}
use task_scheduler_mcp.Store.Ensures.{Ensures, Ensures-bind}
use task_scheduler_mcp.Store.Keeps.{Keeps, Keeps-bind, Keeps-gets, Keeps-modify, Keeps-pure, OnOk}
use task_scheduler_mcp.Store.Session.{
  pure, commit, ◌>>=◌, find_job, Error, Result, ok, err, Session, raise_if, concurrency_error, gets,
  modify, add_event,
}
use task_scheduler_mcp.Store.{Db, Job, JobRun, DateTime, EventType, RunStatus, RunEvent}

insert_run-IsQuiet : (p : ℕ → Bool) (new : JobRun) → Keeps (IsQuiet p) (insert_run new)
unfolding insert_run
insert_run-IsQuiet p new = record {
  at = λ db q.
      elim (Bool-cases (
        exists (same_nonterminal new) db.runs
        || exists (same_cause new.wait_for_run_id new) db.runs)) [
          | inl twice ↦ rw (insert_run, twice) tt
          | inr first ↦ rw (insert_run, first) q
        ];
}

raise_if-IsQuiet : (p : ℕ → Bool) (test : Bool) (e : Error) → Keeps (IsQuiet p) (raise_if test e)
raise_if-IsQuiet p true e = record { at = λ db q. tt }
raise_if-IsQuiet p false e = record { at = λ db q. q }

spawn_run-IsQuiet :
    (p : ℕ → Bool) (now : ℕ) (job : Job) (run_at : DateTime) (status : RunStatus) (cause : Option ℕ)
    → Keeps (IsQuiet p) (spawn_run now job run_at status cause)
unfolding spawn_run
spawn_run-IsQuiet p now job run_at status cause =
    Keeps-bind (gets (has_executing_run job.job_id)) _ (Keeps-gets _) λ executing.
      Keeps-bind (raise_if executing concurrency_error) _ (raise_if-IsQuiet p executing _) λ _.
        Keeps-bind (gets (λ db. db.next_run_id)) _ (Keeps-gets _) λ run_id.
          let run = new_run now run_id job run_at status cause in
          Keeps-bind (insert_run run) _ (insert_run-IsQuiet p run) λ _.
            Keeps-bind
              (modify (add_event now run_id job.job_id EventType.created none (some status) none)) _
              (Keeps-modify _ λ db q. q) λ _. Keeps-pure run

IsQuiet-IsKept : (p : ℕ → Bool) → IsKept (IsQuiet p)
IsQuiet-IsKept p = record {
  spawns = spawn_run-IsQuiet p;
  audits = λ now event t document other db q. rw other q;
  jobs = λ db jobs q. q;
  stamps = λ now event_id db q. stamp-quiet p now event_id db.events q;
}

abbrev IsStamped : RunEvent → Db → Type 0
IsStamped e = IsQuiet (λ i. i == e.event_id)

-- What the last part of a block does, whatever is done before it.
Ensures-last :
    {A B : Type 0} (Q : B → Db → Type 0) (m : Session A) (f : A → Session B) (db : Db)
    → ((a : A) (db' : Db) → Ensures Q (f a db'))
    → Ensures Q ((m >>= f) db)
Ensures-last {A} {B} Q m f db h = cases (m db)
  where
    cases : (r : Result (A × Db)) → Ensures Q (elim r [ ok (a, db') ↦ f a db' | err e ↦ err e ])
    cases (ok (a, db')) = h a db'
    cases (err e) = tt

Ensures-both :
    {A : Type 0} (P : Db → Type 0) (Q : A → Db → Type 0) (r : Result (A × Db))
    → OnOk P r
    → Ensures Q r
    → Ensures (λ a db. P db × Q a db) r
Ensures-both P Q (ok (a, db)) p q = (p, q)
Ensures-both P Q (err e) p q = tt

-- Whatever the steps before do, the last one stamps the event.
process_event-IsStamped :
    (calendar : Calendar) (fuel now : ℕ) (event : RunEvent) (db : Db)
    → Ensures (λ a db'. IsStamped event db') (process_event calendar fuel now event db)
unfolding process_event
process_event-IsStamped calendar fuel now event db =
    let Q : Unit {0} → Db → Type 0 = λ a. IsStamped event in
    Ensures-last Q (gets (find_job event.job_id)) _ db λ upstream db1.
      Ensures-last Q (successor_of calendar now event upstream) _ db1 λ _ db2.
        Ensures-last Q (downstreams_of now event upstream) _ db2 λ js db3.
          Ensures-last Q (settle_check fuel now event.job_id) _ db3 λ _ db4.
            Ensures-last Q (each (settle_check fuel now) (map (λ (j : Job). j.job_id) js))
              (λ _. modify (λ (d : Db). record d {
                events = update (event_of event.event_id) (stamp now) d.events;
              }))
              db4 λ _ db5. stamp-drains now event.event_id db5.events

process_events-IsStamped :
    (calendar : Calendar) (fuel now : ℕ) (events : List RunEvent) (db : Db)
    → Ensures
        (λ a db'. All (λ e. IsStamped e db') events)
        (each_event (process_event calendar fuel now) events db)
process_events-IsStamped calendar fuel now [] db = tt
process_events-IsStamped calendar fuel now (e ∷ es) db =
    Ensures-bind (λ a db'. IsStamped e db') (λ a db'. All (λ e'. IsStamped e' db') (e ∷ es))
      (process_event calendar fuel now e) _ db (process_event-IsStamped calendar fuel now e db)
      λ _ db1 first.
        Ensures-both (IsStamped e) (λ a db'. All (λ e'. IsStamped e' db') es) _
          ((process_events-Keeps (IsStamped e) (IsQuiet-IsKept _) calendar fuel now es).at db1
            first)
          (process_events-IsStamped calendar fuel now es db1)

is_taken : Db → ℕ → Bool
is_taken db i = exists (event_of i) (pending_of db)

-- Every pending event is taken.
none-IsQuiet : (db : Db) → IsQuiet (λ i. not (is_taken db i)) db
unfolding is_taken
none-IsQuiet db = none-missed (is_taken db) db.events (
    All-map db.events
      (λ e (t : Taken db.events e) own.
        exists-order_by (event_of e.event_id) (λ (a b : RunEvent). leb a.event_id b.event_id)
          (select is_pending db.events)
        ∙ t own)
      (select-Taken db.events))

-- What a tick comes to: an error that undoes it, or the number of the pending events, and then the
-- next tick has nothing to do.
abbrev pub Drains : Calendar → (fuel later batch_size : ℕ) → Db → Result ℕ × Db → Type 0
Drains calendar fuel later batch_size db (err e, after) = after ≡ db
Drains calendar fuel later batch_size db (ok n, after) =
    (n ≡ count is_pending db.events)
    × (poll_once calendar fuel later batch_size after ≡ (ok 0, after))

module _ (calendar : Calendar) (fuel now later batch_size : ℕ) (db : Db)
    (fits : count is_pending db.events ≤ batch_size) where
  drained :
      (after : Db)
      → IsQuiet (λ i. not (is_taken db i)) after
      → All (λ e. IsStamped e after) (pending_of db)
      → poll_once calendar fuel later batch_size after ≡ (ok 0, after)
  unfolding poll_once is_taken
  drained after others stamped =
      let none_pending = none-left (pending_of db) after.events stamped others in
      rw (poll_once, pending_events-none batch_size after none_pending) refl

  ticked :
      (r : Result (Unit {0} × Db))
      → OnOk (IsQuiet (λ i. not (is_taken db i))) r
      → Ensures (λ a after. All (λ e. IsStamped e after) (pending_of db)) r
      → Drains calendar fuel later batch_size db (
          commit db
            (elim r [ ok (a, after) ↦ pure (length (pending_of db)) after | err e ↦ err e ]))
  ticked (ok (a, after)) others stamped = (length-pending_of db, drained after others stamped)
  ticked (err e) others stamped = refl

  -- A tick of the continuation consumer whose batch has room for every unprocessed terminal event
  -- either raises and leaves the tables as they were, or answers the number of those events, and
  -- then a later tick answers zero and changes nothing.
  pub poll_once-Drains :
      Drains calendar fuel later batch_size db (poll_once calendar fuel now batch_size db)
  unfolding poll_once poll_block
  poll_once-Drains =
      let taken = pending_of db in
      rw (poll_once, poll_block, pending_events-all batch_size db fits)
        (ticked (each_event (process_event calendar fuel now) taken db)
          ((process_events-Keeps _ (IsQuiet-IsKept (λ i. not (is_taken db i))) calendar fuel now
              taken).at
            db (none-IsQuiet db))
          (process_events-IsStamped calendar fuel now taken db))
