-- ===== src/Jobs/Create/Retry.antt =====
-- A creation that is sent again with its key.
use task_scheduler_mcp.Common.{
  ℕ, ◌≤◌, String, ◌≡◌, refl, ap, ◌∙◌, inl, inr, Bool, true, ◌&&◌, some, List, str_eq, eq_iff,
  eq_refl, Option-cases, &&-left, &&-right, head?, select, count, Has, Has-select, head?-Has,
  head?-only,
}
use task_scheduler_mcp.Store.Session.{◌>>=◌, ok}
use task_scheduler_mcp.Jobs.Create.Outcome.{create_job-Creates, Creates}
use task_scheduler_mcp.Store.{Db, Job}
use task_scheduler_mcp.Jobs.Create.{
  is_some_text, has_key, check_arguments, Plan, Environment, create_job, NewJob, find_existing,
}

-- The row that a lookup finds passes its test.
found-passes :
    (p : Job → Bool) (job : Job) (jobs : List Job) → head? (select p jobs) ≡ some job → p job ≡ true
found-passes p job jobs found = (Has-select p job jobs (head?-Has job (select p jobs) found)).1

keyed-job :
    (user_id key : String) (job : Job)
    → has_key user_id key job ≡ true
    → (job.idempotency_key ≡ some key) × (job.user_id ≡ user_id)
keyed-job user_id key job h = elim (Option-cases job.idempotency_key) [
  | inl missing ↦ absurd (cc (rw (has_key, missing, is_some_text) at h))
  | inr (own, there) ↦
      let both = rw (has_key, there, is_some_text) at h in
      (
        there ∙ ap some ((eq_iff own key).0 (&&-left (str_eq own key) _ both)),
        (eq_iff job.user_id user_id).0 (&&-right (str_eq own key) _ both),
      )
]

-- The job of a keyed creation that returned has the key and the user of the arguments.
created-key :
    (args : NewJob) (key : String) (job : Job) (before after : Db)
    → args.idempotency_key ≡ some key
    → Creates args before job after
    → (job.idempotency_key ≡ some key) × (job.user_id ≡ args.user_id)
unfolding find_existing
created-key args key job before after keyed (inl (found, same)) =
    keyed-job args.user_id key job
      (found-passes (has_key args.user_id key) job before.jobs (rw (find_existing, keyed) at found))
created-key args key job before after keyed (inr c) = (c.key ∙ keyed, c.owner)

-- The unique constraint on the user and the key.
abbrev pub IsOnly : String → String → List Job → Type 0
IsOnly user_id key jobs =
    count (λ (j : Job). is_some_text j.idempotency_key key && str_eq j.user_id user_id) jobs ≤ 1

-- The row of a job, as other sessions have left it: they may have changed its state, but neither its
-- id, its user nor its key.
pub record StillStands (job row : Job) (jobs : List Job) : Type 0 where
  pub there : Has row jobs
  pub same_id : row.job_id ≡ job.job_id
  pub same_user : row.user_id ≡ job.user_id
  pub same_key : row.idempotency_key ≡ job.idempotency_key

-- A creation that is sent again with its idempotency key, at any later instant and on whatever
-- tables it then finds, returns the row of the job that the first created and changes nothing,
-- whatever became of the job meanwhile, where that row still has its id, user and key, no other row
-- has the key of the user, and the arguments still pass the checks.
pub create_job-again :
    (env : Environment) (now stamp later later_stamp : ℕ) (args : NewJob) (key : String)
    (db db' seen : Db) (job row : Job) (plan : Plan)
    → args.idempotency_key ≡ some key
    → create_job env now stamp args db ≡ ok (job, db')
    → StillStands job row seen.jobs
    → IsOnly args.user_id key seen.jobs
    → check_arguments env later args seen ≡ ok (plan, seen)
    → create_job env later later_stamp args seen ≡ ok (row, seen)
unfolding create_job find_existing
create_job-again env now stamp later later_stamp args key db db' seen job row plan keyed first
      stands only passes =
    let made = rw first at (create_job-Creates env now stamp args db) in
    let own = created-key args key job db db' keyed made in
    let row_key : row.idempotency_key ≡ some key = stands.same_key ∙ own.0 in
    let row_user : row.user_id ≡ args.user_id = stands.same_user ∙ own.1 in
    let passes_test : has_key args.user_id key row ≡ true =
      rw (has_key, row_key, is_some_text, eq_refl key, row_user) (eq_refl args.user_id) in
    let found : find_existing args seen ≡ some row =
      rw (find_existing, keyed)
        (head?-only (has_key args.user_id key) row seen.jobs stands.there passes_test only) in
    rw (◌>>=◌, passes, found) refl
