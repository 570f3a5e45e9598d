-- ===== src/Store/Session.antt =====
-- The SQLAlchemy session as the program uses it: statements inside one transaction.
-- A statement sees the database and may raise. `begin` and `begin_nested` undo everything when the
-- block raises, so a raised error carries no database.
use task_scheduler_mcp.Common.{
  ◌≡◌, refl, ◌⊎◌, inl, inr, some, if◌then◌else◌, ℕ, ◌+◌, Bool, Option, none, ◌∷◌, update, select,
  head?,
}
use task_scheduler_mcp.Store.{
  RunEvent, Db, Job, JobRun, RunStatus, EventType, EventData, run_of, job_of,
}

pub data Error : Type 0 where
  unknown_action operator_only_action job_not_found unsupported_schedule_type : Error
  invalid_scheduled_at invalid_timezone invalid_cron_expr value_error : Error
  invalid_state : RunStatus → Error
  chain_job_not_found chain_job_terminated chain_cycle chain_depth chain_run_source : Error
  concurrency_error integrity_error cron_error no_result_found recursion_error : Error
  type_error key_error os_error connection_miss decryption_error external_error : Error

pub data Result {ℓ} (A : Type ℓ) : Type ℓ where
  ok : A → Result A
  err : Error → Result A

pub Result-cases {ℓ} :
    {A : Type ℓ} (r : Result A) → ((e : Error) × (r ≡ err e)) ⊎ ((a : A) × (r ≡ ok a))
Result-cases (err e) = inl (e, refl)
Result-cases (ok a) = inr (a, refl)

-- A block of statements inside one transaction.
abbrev pub Session : Type 0 → Type 0
Session A = Db → Result (A × Db)

abbrev pub pure : {A : Type 0} → A → Session A
pure a db = ok (a, db)

abbrev pub raise : {A : Type 0} → Error → Session A
raise e db = err e

-- `if test: raise e`
abbrev pub raise_if : Bool → Error → Session (Unit {0})
raise_if test e db = if test then err e else ok (tt, db)

-- `if found is None: raise e`
abbrev pub or_raise : {A : Type 0} → Option A → Error → Session A
or_raise none e = raise e
or_raise (some a) e = pure a

infixl 5 ◌>>=◌ ◌>>◌
abbrev pub ◌>>=◌ : {A B : Type 0} → Session A → (A → Session B) → Session B
◌>>=◌ m f db = elim (m db) [ ok (a, db') ↦ f a db' | err e ↦ err e ]

abbrev pub ◌>>◌ : {A B : Type 0} → Session A → Session B → Session B
m >> k = m >>= λ _. k

abbrev pub gets : {A : Type 0} → (Db → A) → Session A
gets f db = ok (f db, db)

abbrev pub modify : (Db → Db) → Session (Unit {0})
modify f db = ok (tt, f db)

-- `async with session.begin()`: commit on return, roll back when the block raises.
abbrev pub commit : {A : Type 0} → Db → Result (A × Db) → Result A × Db
commit db (ok (a, db')) = (ok a, db')
commit db (err e) = (err e, db)

abbrev pub begin : {A : Type 0} → Session A → Db → Result A × Db
begin m db = commit db (m db)

-- `try: async with session.begin_nested(): m` with handlers: the savepoint is rolled back first.
abbrev pub try_nested : {A : Type 0} → Session A → (Error → Session A) → Session A
try_nested m handler db = elim (m db) [ ok r ↦ ok r | err e ↦ handler e db ]

abbrev pub update_runs : (JobRun → Bool) → (JobRun → JobRun) → Db → Db
update_runs p f db = record db { runs = update p f db.runs }

abbrev pub update_jobs : (Job → Bool) → (Job → Job) → Db → Db
update_jobs p f db = record db { jobs = update p f db.jobs }

abbrev pub event_row :
    ℕ → ℕ → ℕ → ℕ → EventType → Option RunStatus → Option RunStatus → Option EventData → RunEvent
event_row now event_id run_id job_id event_type status_from status_to event_data = record {
  event_id = event_id;
  run_id = run_id;
  job_id = job_id;
  event_type = event_type;
  status_from = status_from;
  status_to = status_to;
  event_data = event_data;
  occurred_at = now;
  processed = none;
}

-- `session.add(RunEvent(…))`, at the instant `now` that the server default stamps.
abbrev pub add_event :
    ℕ → ℕ → ℕ → EventType → Option RunStatus → Option RunStatus → Option EventData → Db → Db
add_event now run_id job_id event_type status_from status_to event_data db = record db {
  events =
      event_row now db.next_event_id run_id job_id event_type status_from status_to event_data
      ∷ db.events;
  next_event_id = db.next_event_id + 1;
}

-- `session.get(Job, job_id)` and `select(Job).where(Job.job_id == job_id)`
abbrev pub find_job : ℕ → Db → Option Job
find_job job_id db = head? (select (job_of job_id) db.jobs)

-- `select(JobRun).where(JobRun.run_id == run_id)`
abbrev pub find_run : ℕ → Db → Option JobRun
find_run run_id db = head? (select (run_of run_id) db.runs)
