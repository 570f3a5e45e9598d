-- ===== src/Mcp/TaskCreate/Answers.antt =====
-- What the answer of `task.create` says of the tables.
use task_scheduler_mcp.Secrets.LiteralDetection.{detect_literal_secret}
use task_scheduler_mcp.Jobs.Create.Keeping.{create_job-IsWellFormed}
use task_scheduler_mcp.Store.Keeps.{OnOk}
use task_scheduler_mcp.Store.WellFormed.{IsWellFormed}
use task_scheduler_mcp.Limits.RateLimit.{check_rate_limit, RateLimitDecision}
use task_scheduler_mcp.Store.Ensures.{Ensures}
use task_scheduler_mcp.Limits.Containment.Caps.{check_containment-IsContained, IsContained}
use task_scheduler_mcp.Limits.Containment.{
  ContainmentDecision, check_containment, ContainmentLimits,
}
use task_scheduler_mcp.Jobs.Create.Outcome.{create_job-Creates, Creates}
use mathlib.Core.Path.{subst}
use task_scheduler_mcp.Store.Session.{commit, Result, begin}
use task_scheduler_mcp.Jobs.Create.{Environment, create_job, NewJob}
use task_scheduler_mcp.Store.{is_none, Job, Db}
use task_scheduler_mcp.Mcp.TaskCreate.{
  unused_id, negative, containment_error, ok, rate_limit_error, err, is_operator, answer, absent,
  not_integer, create_or_refuse, with_trigger, handle_task_create, by_trigger, new_job_of,
  check_user, TaskArguments, integer, Server, IntArg,
}
use task_scheduler_mcp.Mcp.Envelope.{success, failure, Envelope, ErrorBody}
use task_scheduler_mcp.Common.{
  not, ℕ, String, ◌≡◌, refl, ap, inl, inr, false, Option, none, some, List, leb, Bool-cases,
  Option-cases,
}

abbrev trigger_of : Db → IntArg → Option ℕ
trigger_of db (integer trigger) = some trigger
trigger_of db (negative n) = some (unused_id db)
trigger_of db _ = none

module _ (server : Server) (draw now stamp depth : ℕ) (user_id : String) (tz_header : Option String)
    (arguments : TaskArguments) (db : Db) where
  -- The arguments of the creation.
  abbrev job_args : NewJob
  job_args =
      new_job_of server user_id tz_header arguments (trigger_of db arguments.trigger_on_job_id)

  -- The creation, when the checks have let the user in.
  abbrev creation : Envelope ℕ × Db
  creation = answer (begin (create_job server.env now stamp job_args) db)

  module _ (P : Envelope ℕ × Db → Type 0) (refused : (body : ErrorBody) → P (failure body, db))
      (created : check_user server draw now user_id arguments.action db.jobs ≡ none
        → P creation) where
    after_user :
        (t : Option ℕ)
        → trigger_of db arguments.trigger_on_job_id ≡ t
        → P (with_trigger server draw now stamp user_id tz_header arguments t db)
    unfolding with_trigger create_or_refuse
    after_user t same =
        elim (Option-cases (check_user server draw now user_id arguments.action db.jobs)) [
          | inr (body, refusal) ↦ rw (with_trigger, refusal) (refused body)
          | inl passed ↦
              rw (with_trigger, passed)
                (subst
                  (λ x. P (
                    answer (
                      begin
                        (create_job server.env now stamp
                          (new_job_of server user_id tz_header arguments x))
                        db)))
                  same (created passed))
        ]

    after_checks :
        (t : IntArg)
        → arguments.trigger_on_job_id ≡ t
        → P (by_trigger server draw now stamp user_id tz_header arguments t db)
    unfolding by_trigger
    after_checks not_integer same = refused _
    after_checks absent same = after_user none (ap (trigger_of db) same)
    after_checks (integer trigger) same = after_user (some trigger) (ap (trigger_of db) same)
    after_checks (negative n) same = after_user (some (unused_id db)) (ap (trigger_of db) same)

    -- A refusal changes nothing, and what is no refusal is a creation after checks that passed.
    by_answer : P (handle_task_create server draw now stamp depth user_id tz_header arguments db)
    unfolding handle_task_create
    by_answer =
        elim (Bool-cases
          (not (is_none (detect_literal_secret server.alnum arguments.action_params)))) [
            | inl secret ↦ rw secret (refused _)
            | inr clean ↦
                elim (Bool-cases (leb server.settings.overload_backpressure_queue_depth depth)) [
                  | inl deep ↦ rw (clean, deep) (refused _)
                  | inr shallow ↦
                      rw (clean, shallow) (after_checks arguments.trigger_on_job_id refl)
                ]
          ]

-- What an answer says: a failure that the tables are as they were, a success that its job was there
-- or is new.
abbrev pub Tells : NewJob → Db → Envelope ℕ × Db → Type 0
Tells args db (failure body, after) = after ≡ db
Tells args db (success job_id, after) =
    (job : Job) × (job.job_id ≡ job_id) × Creates args db job after

creation-Tells :
    (env : Environment) (now stamp : ℕ) (args : NewJob) (db : Db)
    → Tells args db (answer (begin (create_job env now stamp args) db))
creation-Tells env now stamp args db =
    cases (create_job env now stamp args db) (create_job-Creates env now stamp args db)
  where
    cases :
        (r : Result (Job × Db)) → Ensures (Creates args db) r → Tells args db (answer (commit db r))
    cases (err e) h = refl
    cases (ok (job, after)) h = (job, refl, h)

-- An error envelope of task.create has left the tables as they were; a success names a job that had
-- the idempotency key already, and then nothing has changed, or a new active job of the user with a
-- fresh id in front of the others, which has one PENDING run without a cause if it is not chained,
-- and no run if it is.
pub handle_task_create-Tells :
    (server : Server) (draw now stamp depth : ℕ) (user_id : String) (tz_header : Option String)
    (arguments : TaskArguments) (db : Db)
    → Tells
        (new_job_of server user_id tz_header arguments (trigger_of db arguments.trigger_on_job_id))
        db
        (handle_task_create server draw now stamp depth user_id tz_header arguments db)
handle_task_create-Tells server draw now stamp depth user_id tz_header arguments db =
    let args =
      new_job_of server user_id tz_header arguments (trigger_of db arguments.trigger_on_job_id) in
    by_answer server draw now stamp depth user_id tz_header arguments db (Tells args db)
      (λ body. refl) λ passed. creation-Tells server.env now stamp args db

creation-IsContained :
    (env : Environment) (now stamp : ℕ) (args : NewJob) (limits : ContainmentLimits) (db : Db)
    → check_containment args.user_id db.jobs limits false ≡ ContainmentDecision.allow
    → IsContained limits db.jobs
    → IsContained limits (answer (begin (create_job env now stamp args) db)).1.jobs
creation-IsContained env now stamp args limits db let_in h =
    cases (create_job env now stamp args db) (create_job-Creates env now stamp args db)
  where
    cases :
        (r : Result (Job × Db))
        → Ensures (Creates args db) r
        → IsContained limits (answer (commit db r)).1.jobs
    cases (err e) c = h
    cases (ok (job, after)) (inl (found, same)) = rw same h
    cases (ok (job, after)) (inr c) =
        rw c.jobs (check_containment-IsContained args.user_id db.jobs limits job let_in c.owner h)

-- A user who passed the checks and is no operator is below the caps.
check_user-allow :
    (server : Server) (draw now : ℕ) (user_id action : String) (jobs : List Job)
    → is_operator server.settings user_id ≡ false
    → check_user server draw now user_id action jobs ≡ none
    → check_containment user_id jobs server.settings.containment_limits false
      ≡ ContainmentDecision.allow
unfolding check_user
check_user-allow server draw now user_id action jobs mortal passed =
    cases (check_rate_limit user_id jobs server.settings.rate_limits now)
      (check_containment user_id jobs server.settings.containment_limits false) _
      (rw (check_user, mortal) at passed)
  where
    cases :
        (r : Result RateLimitDecision) (c : ContainmentDecision) (next : Option ErrorBody)
        → rate_limit_error r (containment_error c next) ≡ none
        → c ≡ ContainmentDecision.allow
    cases r ContainmentDecision.allow next h = refl
    cases (err e) (ContainmentDecision.reject reason seconds) next h = absurd (cc h)
    cases (ok RateLimitDecision.allow) (ContainmentDecision.reject reason seconds) next h =
        absurd (cc h)
    cases (ok (RateLimitDecision.reject why wait)) (ContainmentDecision.reject reason seconds) next
          h =
        absurd (cc h)

-- A task.create of a user who is not the operator, whatever its arguments and its answer, leaves
-- every user and the whole table within the caps on active jobs, where they were within them before
-- and no other session writes between its checks and its insert.
pub handle_task_create-IsContained :
    (server : Server) (draw now stamp depth : ℕ) (user_id : String) (tz_header : Option String)
    (arguments : TaskArguments) (db : Db)
    → is_operator server.settings user_id ≡ false
    → IsContained server.settings.containment_limits db.jobs
    → IsContained server.settings.containment_limits
        (handle_task_create server draw now stamp depth user_id tz_header arguments db).1.jobs
handle_task_create-IsContained server draw now stamp depth user_id tz_header arguments db mortal h =
    let args =
      new_job_of server user_id tz_header arguments (trigger_of db arguments.trigger_on_job_id) in
    let limits = server.settings.containment_limits in
    by_answer server draw now stamp depth user_id tz_header arguments db
      (λ answered. IsContained limits answered.1.jobs) (λ body. h)
      λ passed.
        creation-IsContained server.env now stamp args limits db
          (check_user-allow server draw now user_id arguments.action db.jobs mortal passed) h

-- A creation that is asked for keeps the invariant of the tables, on every branch.
pub handle_task_create-IsWellFormed :
    (server : Server) (draw now stamp depth : ℕ) (user_id : String) (tz_header : Option String)
    (arguments : TaskArguments) (db : Db)
    → IsWellFormed db
    → IsWellFormed (handle_task_create server draw now stamp depth user_id tz_header arguments db).1
handle_task_create-IsWellFormed server draw now stamp depth user_id tz_header arguments db w =
    let args =
      new_job_of server user_id tz_header arguments (trigger_of db arguments.trigger_on_job_id) in
    by_answer server draw now stamp depth user_id tz_header arguments db
      (λ answered. IsWellFormed answered.1) (λ body. w)
      λ passed.
        begun (create_job server.env now stamp args db)
          ((create_job-IsWellFormed server.env now stamp args).at db w)
  where
    begun : (r : Result (Job × Db)) → OnOk IsWellFormed r → IsWellFormed (answer (commit db r)).1
    begun (err e) h = w
    begun (ok (job, after)) h = h
