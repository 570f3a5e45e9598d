-- ===== src/Store.antt =====
-- app/db/models.py: the rows of the three core tables, and the database that holds them.
-- Instants are microseconds since the epoch. A row newly inserted stands in front of its table.
-- The text columns `state`, `job_type`, `status`, `event_type` and `trigger_on_status` have no CHECK
-- constraint: each data type below lists the values that the program writes there.
pub mod Session
pub mod Keeps
pub mod Ensures
pub mod Replay
pub mod WellFormed
pub mod Batch
use task_scheduler_mcp.Common.{
  ℕ, ◌+◌, ◌-◌, ◌%◌, String, Bool, true, false, Option, none, some, List, [], ◌∷◌, ◌==◌, ◌&&◌,
}

pub data RunStatus : Type 0 where
  pending queued running retrying succeeded failed cancelled : RunStatus

pub data JobState : Type 0 where
  active completed cancelled : JobState

pub data JobType : Type 0 where
  one_shot recurring : JobType

pub data TriggerStatus : Type 0 where
  on_succeeded on_failed on_any : TriggerStatus

pub data EventType : Type 0 where
  created queued started succeeded failed retry cancelled reenqueued : EventType
  chain_skipped_predicate_miss chain_skipped_slow_consumer : EventType

-- An aware datetime: its instant, and its wall clock (the difference is the UTC offset).
pub record DateTime : Type 0 where
  pub utc : ℕ
  pub wall : ℕ

abbrev pub second : ℕ
second = 1000000

abbrev pub minute : ℕ
minute = 60000000

abbrev pub hour : ℕ
hour = 3600000000

-- `dt.replace(minute=0, second=0, microsecond=0)`
unfoldable pub truncate_hour : DateTime → DateTime
truncate_hour dt = record { utc = dt.utc - dt.wall % hour; wall = dt.wall - dt.wall % hour }

pub record Job : Type 0 where
  pub job_id : ℕ
  pub user_id : String
  pub description : String
  pub action : String
  pub action_params : String
  pub job_type : JobType
  pub scheduled_at : Option ℕ
  pub cron_expr : Option String
  pub timezone : String
  pub cancelled_at : Option ℕ
  pub trigger_on_job_id : Option ℕ
  pub trigger_on_status : Option TriggerStatus
  pub idempotency_key : Option String
  pub state : JobState
  pub created_at : ℕ
  pub updated_at : ℕ

-- The texts that the program writes as `error_message`: a template with its arguments.
pub data Message : Type 0 where
  text : String → Message
  unknown_action : (action : String) → Message
  invalid_params : (exc : String) → Message
  action_timed_out : (timeout_seconds : ℕ) → Message
  action_raised : (exc : String) → Message
  exceeded_max_receive : Message
  worker_died : Message

pub record JobRun : Type 0 where
  pub run_id : ℕ
  pub time_bucket : DateTime
  pub job_id : ℕ
  pub user_id : String
  pub scheduled_at : ℕ
  pub status : RunStatus
  pub result : Option String
  pub error_message : Option Message
  pub error_code : Option String
  pub retry_count : ℕ
  pub max_retries : ℕ
  pub wait_for_run_id : Option ℕ
  pub start_at : Option ℕ
  pub finish_at : Option ℕ
  pub heartbeat_at : Option ℕ
  pub created_at : ℕ
  pub updated_at : ℕ

-- The JSON documents that the workers store in `event_data`.
pub data EventData : Type 0 where
  payload : String → EventData
  params_error : String → EventData
  dlq_reconcile : (last_seen_at : ℕ) → EventData
  watcher_send_failed : EventData
  running_orphan : (last_heartbeat_at : Option ℕ) → EventData
  slow_consumer : (downstream_job_id : ℕ) → (upstream_status : EventType) → EventData
  predicate_miss :
      (downstream_job_id : ℕ)
      → (trigger_on_status : Option TriggerStatus) → (upstream_status : EventType) → EventData

-- `processed` is the value under the key "continuation" of `processed_by`, the only one written.
pub record RunEvent : Type 0 where
  pub event_id : ℕ
  pub run_id : ℕ
  pub job_id : ℕ
  pub event_type : EventType
  pub status_from : Option RunStatus
  pub status_to : Option RunStatus
  pub event_data : Option EventData
  pub occurred_at : ℕ
  pub processed : Option ℕ

-- The tables, and the next value of each table's autoincrement sequence.
pub record Db : Type 0 where
  pub jobs : List Job
  pub runs : List JobRun
  pub events : List RunEvent
  pub next_job_id : ℕ
  pub next_run_id : ℕ
  pub next_event_id : ℕ

-- The statuses in which a run is resident load: `_EXECUTING`.
abbrev pub is_executing : RunStatus → Bool
is_executing RunStatus.pending = true
is_executing RunStatus.queued = true
is_executing RunStatus.running = true
is_executing RunStatus.retrying = true
is_executing _ = false

abbrev pub is_active : JobState → Bool
is_active JobState.active = true
is_active _ = false

abbrev pub is_recurring : JobType → Bool
is_recurring recurring = true
is_recurring one_shot = false

abbrev pub is_none {ℓ} : {A : Type ℓ} → Option A → Bool
is_none none = true
is_none (some a) = false

-- SQL's `column = k` on a nullable column: NULL is equal to nothing.
abbrev pub is_some_id : Option ℕ → ℕ → Bool
is_some_id none k = false
is_some_id (some i) k = i == k

abbrev pub run_of : ℕ → JobRun → Bool
run_of run_id r = r.run_id == run_id

abbrev pub job_of : ℕ → Job → Bool
job_of job_id j = j.job_id == job_id

-- An executing run of the job.
abbrev pub executes : ℕ → JobRun → Bool
executes job_id r = (r.job_id == job_id) && is_executing r.status

-- The rows that the indexes on a run's cause compare.
abbrev pub same_trigger : ℕ → ℕ → JobRun → Bool
same_trigger job_id upstream r = (r.job_id == job_id) && is_some_id r.wait_for_run_id upstream

abbrev pub same_tick : ℕ → ℕ → JobRun → Bool
same_tick job_id tick r =
    (r.job_id == job_id) && (is_none r.wait_for_run_id && (r.scheduled_at == tick))
