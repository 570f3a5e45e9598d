-- ===== src/Jobs/Settle/Settled.antt =====
-- What a cascade of settles may do to the tables.
use task_scheduler_mcp.Store.Session.{err, Result}
use task_scheduler_mcp.Store.{executes, job_of, is_active, JobRun, Job, Db}
use task_scheduler_mcp.Common.{
  ℕ, ◌≤◌, ◌≡◌, refl, ◌∙◌, ◌⊎◌, inl, inr, Bool, true, false, none, List, [], ◌∷◌, arith, exists,
  count,
}
use task_scheduler_mcp.Jobs.Settle.{ok, complete}

-- What settling may do to a job, the runs being `runs`.
abbrev SettledJob : ℕ → List JobRun → Job → Job → Type 0
SettledJob now runs j k =
    (k ≡ j)
    ⊎ ((is_active j.state ≡ true)
        × (j.cron_expr ≡ none)
        × (exists (executes j.job_id) runs ≡ false)
        × (k ≡ complete now j))

abbrev pub SettledJobs : ℕ → List JobRun → List Job → List Job → Type 0
SettledJobs now runs [] [] = Unit
SettledJobs now runs (j ∷ js) (k ∷ ks) = SettledJob now runs j k × SettledJobs now runs js ks
SettledJobs now runs _ _ = ⊥

-- Only jobs change, and only by being settled.
pub record OnlySettles (now : ℕ) (db db' : Db) : Type 0 where
  pub runs : db'.runs ≡ db.runs
  pub events : db'.events ≡ db.events
  pub next_job_id : db'.next_job_id ≡ db.next_job_id
  pub next_run_id : db'.next_run_id ≡ db.next_run_id
  pub next_event_id : db'.next_event_id ≡ db.next_event_id
  pub jobs : SettledJobs now db.runs db.jobs db'.jobs

-- The block returns, and its database satisfies `P`.
abbrev pub Returns : {A : Type 0} → (Db → Type 0) → Result (A × Db) → Type 0
Returns P (ok (a, db)) = P db
Returns P (err e) = ⊥

abbrev pub actives : Db → ℕ
actives db = count (λ (j : Job). is_active j.state) db.jobs

abbrev pub IsKeyed : Db → Type 0
IsKeyed db = (k : ℕ) → count (job_of k) db.jobs ≤ 1

SettledJobs-refl : (now : ℕ) (runs : List JobRun) (js : List Job) → SettledJobs now runs js js
SettledJobs-refl now runs [] = tt
SettledJobs-refl now runs (j ∷ js) = (inl refl, SettledJobs-refl now runs js)

SettledJob-trans :
    (now : ℕ) (runs : List JobRun) (i j k : Job)
    → SettledJob now runs i j
    → SettledJob now runs j k
    → SettledJob now runs i k
SettledJob-trans now runs i j k (inl p) (inl q) = inl (q ∙ p)
SettledJob-trans now runs i j k (inr p) (inl q) = inr (p.0, p.1, p.2, q ∙ p.3)
SettledJob-trans now runs i j k (inl p) (inr q) = ground arith
SettledJob-trans now runs i j k (inr p) (inr q) = absurd (ground arith)

SettledJobs-trans :
    (now : ℕ) (runs : List JobRun) (is js ks : List Job)
    → SettledJobs now runs is js
    → SettledJobs now runs js ks
    → SettledJobs now runs is ks
SettledJobs-trans now runs [] [] [] p q = tt
SettledJobs-trans now runs (i ∷ is) (j ∷ js) (k ∷ ks) p q =
    (SettledJob-trans now runs i j k p.0 q.0, SettledJobs-trans now runs is js ks p.1 q.1)
SettledJobs-trans now runs [] (j ∷ js) ks p q = absurd p
SettledJobs-trans now runs [] [] (k ∷ ks) p q = absurd q
SettledJobs-trans now runs (i ∷ is) [] ks p q = absurd p
SettledJobs-trans now runs (i ∷ is) (j ∷ js) [] p q = absurd q

pub OnlySettles-refl : (now : ℕ) (db : Db) → OnlySettles now db db
OnlySettles-refl now db = record {
  runs = refl;
  events = refl;
  next_job_id = refl;
  next_run_id = refl;
  next_event_id = refl;
  jobs = SettledJobs-refl now db.runs db.jobs;
}

pub OnlySettles-trans :
    (now : ℕ) (a b c : Db) → OnlySettles now a b → OnlySettles now b c → OnlySettles now a c
OnlySettles-trans now a b c p q = record {
  runs = q.runs ∙ p.runs;
  events = q.events ∙ p.events;
  next_job_id = q.next_job_id ∙ p.next_job_id;
  next_run_id = q.next_run_id ∙ p.next_run_id;
  next_event_id = q.next_event_id ∙ p.next_event_id;
  jobs = SettledJobs-trans now a.runs a.jobs b.jobs c.jobs p.jobs (rw p.runs at q.jobs);
}

-- Settling lowers every count of jobs that completing a job does not raise.
pub count-settled :
    (now : ℕ) (runs : List JobRun) (q : Job → Bool)
    → ((j : Job) → q (complete now j) ≡ true → q j ≡ true)
    → (js ks : List Job) → SettledJobs now runs js ks
    → count q ks ≤ count q js
count-settled now runs q calm [] [] p = omega arith
count-settled now runs q calm [] (k ∷ ks) p = absurd p
count-settled now runs q calm (j ∷ js) [] p = absurd p
count-settled now runs q calm (j ∷ js) (k ∷ ks) p =
    ground (arith, calm j, count-settled now runs q calm js ks p.1)

pub actives-le : (now : ℕ) (db db' : Db) → OnlySettles now db db' → actives db' ≤ actives db
actives-le now db db' s =
    count-settled now db.runs (λ (j : Job). is_active j.state) (λ j h. ground arith) db.jobs
      db'.jobs s.jobs

pub IsKeyed-settled : (now : ℕ) (db db' : Db) → OnlySettles now db db' → IsKeyed db → IsKeyed db'
IsKeyed-settled now db db' s keyed k =
    omega (arith, count-settled now db.runs (job_of k) (λ j h. h) db.jobs db'.jobs s.jobs, keyed k)
