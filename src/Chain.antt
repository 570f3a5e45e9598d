-- ===== src/Chain.antt =====
-- app/domain/chain_validation.py: the rules V1 to V6 for a job that another job triggers.
pub mod Depth
use task_scheduler_mcp.Common.{
  suc, zero, ℕ, ◌+◌, String, Bool, true, false, Option, none, some, List, [], ◌∷◌, ◌++◌, ◌==◌, ◌&&◌,
  ◌||◌, exists, max, not, leb, str_eq,
}
use task_scheduler_mcp.Store.{Job, Db, is_none, is_active}
use task_scheduler_mcp.Store.Session.{
  or_raise, chain_depth, chain_cycle, chain_job_terminated, chain_job_not_found, chain_run_source,
  Session, raise_if, gets, ◌>>=◌, ◌>>◌, find_job,
}

-- `MAX_CHAIN_DEPTH`
abbrev pub max_chain_depth : ℕ
max_chain_depth = 10

-- Python's truth of an optional text.
abbrev pub is_truthy : Option String → Bool
is_truthy none = false
is_truthy (some s) = not (str_eq s "")

-- V6
unfoldable pub validate_run_source : Option ℕ → Option String → Session (Unit {0})
validate_run_source trigger_on_job_id cron_expr =
    raise_if (not (is_none trigger_on_job_id) && is_truthy cron_expr) chain_run_source

-- A row of the recursive CTE `ancestors`.
pub record Ancestor : Type 0 where
  pub cur_id : ℕ
  pub next_id : Option ℕ
  pub depth : ℕ
  pub path : List ℕ
  pub is_cycle : Bool

abbrev pub first_ancestor : Job → Ancestor
first_ancestor j = record {
  cur_id = j.job_id;
  next_id = j.trigger_on_job_id;
  depth = 1;
  path = j.job_id ∷ [];
  is_cycle = false;
}

abbrev pub next_ancestor : Ancestor → Job → Ancestor
next_ancestor a j = record {
  cur_id = j.job_id;
  next_id = j.trigger_on_job_id;
  depth = a.depth + 1;
  path = a.path ++ j.job_id ∷ [];
  is_cycle = exists (λ k. k == j.job_id) a.path;
}

-- The rows from `a` on; `left` counts the steps that `a.depth < :max_depth + 2` still admits.
pub ancestors_from : ℕ → Db → Ancestor → List Ancestor
ancestors_from zero db a = a ∷ []
ancestors_from (suc left) db a = a ∷ elim a.next_id [
  | none ↦ []
  | some k ↦ elim a.is_cycle [
    | true ↦ []
    | false ↦ elim (find_job k db) [
      | none ↦ []
      | some j ↦ ancestors_from left db (next_ancestor a j)
    ]
  ]
]

-- The CTE's depth starts at 1, so the bound `depth < 12` admits 11 steps.
unfoldable pub ancestors : ℕ → Db → List Ancestor
unfolding ancestors_from
ancestors start_id db = elim (find_job start_id db) [
  | none ↦ []
  | some j ↦ ancestors_from (max_chain_depth + 1) db (first_ancestor j)
]

abbrev pub max_depth : List Ancestor → ℕ
max_depth [] = 0
max_depth (a ∷ rows) = max a.depth (max_depth rows)

abbrev pub has_cycle : List Ancestor → Bool
has_cycle [] = false
has_cycle (a ∷ rows) = a.is_cycle || has_cycle rows

-- V1 to V5
unfoldable pub validate_chain : String → ℕ → Session (Unit {0})
unfolding ancestors
validate_chain user_id trigger_on_job_id = do
  found ← gets (find_job trigger_on_job_id)
  trigger_job ← or_raise found chain_job_not_found
  raise_if (not (str_eq trigger_job.user_id user_id)) chain_job_not_found
  raise_if (not (is_active trigger_job.state)) chain_job_terminated
  rows ← gets (ancestors trigger_on_job_id)
  raise_if (has_cycle rows) chain_cycle
  raise_if (leb max_chain_depth (max_depth rows)) chain_depth
