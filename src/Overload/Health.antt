-- ===== src/Overload/Health.antt =====
-- `get_queue_depth` and `should_shed` of app/overload/health.py. A clock reads microseconds; `measure`
-- is what the queue answers. CPU, RAM and their thresholds are in one unit: a threshold of 1 in the
-- source is 100 % of the load.
pub mod Fresh
use task_scheduler_mcp.Mcp.StatusMapping.{lookup}
use task_scheduler_mcp.Store.{second}
use task_scheduler_mcp.Common.{
  ℕ, zero, suc, ◌+◌, ◌-◌, ◌*◌, ◌/◌, ◌%◌, ◌≤◌, ◌<◌, String, ◌≡◌, refl, ◌∙◌, ◌≢◌, ◌↔◌, ◌⊎◌, inl, inr,
  Bool, true, false, ◌&&◌, ◌||◌, none, some, List, [], ◌∷◌, ◌++◌, ltb, leb, ◌==◌, if◌then◌else◌,
}

-- An entry of `_queue_depth_cache`: the depth and when it was read.
abbrev pub Cache : Type 0
Cache = List (String × (ℕ × ℕ))

-- `_QUEUE_DEPTH_TTL`
abbrev pub queue_depth_ttl : ℕ
queue_depth_ttl = 30 * second

unfoldable pub get_queue_depth : ℕ → ℕ → String → Cache → ℕ × Cache
get_queue_depth measure now queue_url cache = elim (lookup queue_url cache) [
  | none ↦ (measure, (queue_url, (measure, now)) ∷ cache)
  | some (depth, ts) ↦
      if ltb (now - ts) queue_depth_ttl
      then (depth, cache)
      else (measure, (queue_url, (measure, now)) ∷ cache)
]

pub record Load : Type 0 where
  pub cpu : ℕ
  pub ram : ℕ
  pub queue_depth : ℕ

unfoldable pub should_shed : Load → Load → Bool
should_shed limits load =
    if leb limits.cpu load.cpu
    then true
    else if leb limits.ram load.ram
    then true
    else leb limits.queue_depth load.queue_depth
