-- ===== src/Jobs/Settle/Cascade.antt =====
-- The cascade of `settle_check` ends, and settles exhausted jobs only.
use task_scheduler_mcp.Jobs.Settle.Settled.{
  actives-le, IsKeyed-settled, OnlySettles-trans, OnlySettles, OnlySettles-refl, Returns, actives,
  IsKeyed, SettledJobs,
}
use task_scheduler_mcp.Store.Session.{Session, update_jobs, find_job, err, Result}
use task_scheduler_mcp.Store.{is_none, executes, job_of, is_active, JobRun, Job, Db}
use task_scheduler_mcp.Common.{
  suc, zero, Bool-cases, count-exists, head?-select, update, count-update-add, Option-cases, some,
  ◌<◌, All-only_one, All, ℕ, ◌≡◌, refl, inl, inr, Bool, true, false, List, [], ◌∷◌, arith, exists,
}
use task_scheduler_mcp.Jobs.Settle.{
  downstream_ids, settle_with, settle_downstreams, settle_check, each, parent_is_active,
  is_active_job, is_exhausted, ok, complete,
}

-- What the tests of `settle_check` find.
record Exhausted (job_id : ℕ) (db : Db) : Type 0 where
  job : Job
  found : find_job job_id db ≡ some job
  active : is_active job.state ≡ true
  no_cron : is_none job.cron_expr ≡ true
  idle : exists (executes job_id) db.runs ≡ false
  parent_done : parent_is_active job.trigger_on_job_id db ≡ false

is_exhausted-Exhausted :
    (job_id : ℕ) (db : Db) → is_exhausted job_id db ≡ true → Exhausted job_id db
unfolding is_exhausted
is_exhausted-Exhausted job_id db h = elim (Option-cases (find_job job_id db)) [
  | inl missing ↦ absurd (ground (arith, missing, h))
  | inr (job, found) ↦ record {
    job = job;
    found = found;
    active = ground (arith, found, h);
    no_cron = ground (arith, found, h);
    idle = ground (arith, found, h);
    parent_done = ground (arith, found, h);
  }
]

settled-rows :
    (now job_id : ℕ) (runs : List JobRun) (js : List Job)
    → exists (executes job_id) runs ≡ false
    → All (λ (j : Job). job_of job_id j ≡ true → is_none j.cron_expr ≡ true) js
    → SettledJobs now runs js (update (is_active_job job_id) (complete now) js)
settled-rows now job_id runs [] idle a = tt
settled-rows now job_id runs (j ∷ js) idle a = (
  elim (Bool-cases (is_active_job job_id j)) [
    | inr other ↦ inl (rw other)
    | inl here ↦
        let same : job_id ≡ j.job_id = ground (arith, here) in
        inr (ground (arith, here), ground (arith, a.0, here), rw (← same) idle, rw here)
  ],
  settled-rows now job_id runs js idle a.1,
)

-- The compare-and-set of an exhausted job.
abbrev completed_db : ℕ → ℕ → Db → Db
completed_db now job_id db = update_jobs (is_active_job job_id) (complete now) db

cas-OnlySettles :
    (now job_id : ℕ) (db : Db)
    → IsKeyed db
    → Exhausted job_id db
    → OnlySettles now db (completed_db now job_id db)
cas-OnlySettles now job_id db keyed x = record {
  runs = refl;
  events = refl;
  next_job_id = refl;
  next_run_id = refl;
  next_event_id = refl;
  jobs = settled-rows now job_id db.runs db.jobs x.idle (
      All-only_one (job_of job_id) (λ j. is_none j.cron_expr) db.jobs (keyed job_id)
        (head?-select (job_of job_id) (λ j. is_none j.cron_expr) db.jobs x.found x.no_cron));
}

cas-actives-lt :
    (now job_id : ℕ) (db : Db)
    → Exhausted job_id db
    → actives (completed_db now job_id db) < actives db
cas-actives-lt now job_id db x = omega (
  arith,
  count-update-add (is_active_job job_id) (complete now) (λ (j : Job). is_active j.state) db.jobs
      (λ j h. ground arith),
  count-exists (is_active_job job_id) db.jobs
      (head?-select (job_of job_id) (λ j. is_active j.state) db.jobs x.found x.active),
)

-- `check` returns on every database with at most `n` active jobs, and only settles.
abbrev Settles : ℕ → ℕ → (ℕ → Session Bool) → Type 0
Settles now n check =
    (k : ℕ) (db : Db) → IsKeyed db → actives db < n → Returns (OnlySettles now db) (check k db)

pub Returns-map :
    {A : Type 0} (P Q : Db → Type 0) (r : Result (A × Db))
    → ((db : Db) → P db → Q db)
    → Returns P r
    → Returns Q r
Returns-map P Q (ok (a, db)) h p = h db p
Returns-map P Q (err e) h p = absurd p

Returns-bind :
    {A B : Type 0} (now : ℕ) (db : Db) (r : Result (A × Db)) (f : A → Session B)
    → Returns (OnlySettles now db) r
    → ((a : A) (db' : Db) → OnlySettles now db db' → Returns (OnlySettles now db') (f a db'))
    → Returns (OnlySettles now db) (elim r [ ok (a, db') ↦ f a db' | err e ↦ err e ])
Returns-bind now db (ok (a, db')) f s k =
    Returns-map (OnlySettles now db') (OnlySettles now db) (f a db')
      (λ db'' t. OnlySettles-trans now db db' db'' s t) (k a db' s)
Returns-bind now db (err e) f s k = absurd s

each-Returns :
    (now n : ℕ) (check : ℕ → Session Bool)
    → Settles now n check
    → (ks : List ℕ) (db : Db) → IsKeyed db
    → actives db < n
    → Returns (OnlySettles now db) (each check ks db)
each-Returns now n check h [] db keyed lt = OnlySettles-refl now db
each-Returns now n check h (k ∷ ks) db keyed lt =
    Returns-bind now db (check k db) (λ _. each check ks) (h k db keyed lt)
      λ _ db' s.
        each-Returns now n check h ks db' (IsKeyed-settled now db db' s keyed)
          (omega (arith, actives-le now db db' s))

settle_with-Returns :
    (now n : ℕ) (check : ℕ → Session Bool)
    → Settles now n check
    → Settles now (suc n) (settle_with check now)
settle_with-Returns now n check h k db keyed lt = elim (Bool-cases (is_exhausted k db)) [
  | inr no_change ↦ rw no_change (OnlySettles-refl now db)
  | inl done ↦
      let x = is_exhausted-Exhausted k db done in
      let cas = cas-OnlySettles now k db keyed x in
      let db' = completed_db now k db in
      rw done (
        Returns-map (OnlySettles now db') (OnlySettles now db) _
          (λ db'' t. OnlySettles-trans now db db' db'' cas t)
          (Returns-bind now db' (each check (downstream_ids k db') db') (λ _ db''. ok (true, db''))
            (each-Returns now n check h (downstream_ids k db') db'
              (IsKeyed-settled now db db' cas keyed) (omega (arith, cas-actives-lt now k db x)))
            (λ _ db'' _. OnlySettles-refl now db'')))
]

settle_check-Settles : (now fuel : ℕ) → Settles now fuel (settle_check fuel now)
unfolding settle_check
settle_check-Settles now zero k db keyed lt = absurd (omega arith)
settle_check-Settles now (suc fuel) k db keyed lt =
    settle_with-Returns now fuel (settle_check fuel now) (settle_check-Settles now fuel) k db keyed
      lt

-- `settle_check` returns when it may recurse as deep as there are active jobs, even where triggers
-- form a cycle, and then only jobs differ: each is as it was, or was active, has no cron and no
-- executing run, and is now completed.
pub settle_check-OnlySettles :
    (fuel now job_id : ℕ) (db : Db)
    → IsKeyed db
    → actives db < fuel
    → Returns (OnlySettles now db) (settle_check fuel now job_id db)
settle_check-OnlySettles fuel now job_id db keyed lt =
    settle_check-Settles now fuel job_id db keyed lt

pub settle_downstreams-OnlySettles :
    (fuel now parent : ℕ) (db : Db)
    → IsKeyed db
    → actives db < fuel
    → Returns (OnlySettles now db) (settle_downstreams fuel now parent db)
unfolding settle_downstreams
settle_downstreams-OnlySettles fuel now parent db keyed lt =
    each-Returns now fuel (settle_check fuel now) (settle_check-Settles now fuel) _ db keyed lt
