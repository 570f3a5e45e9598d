-- ===== src/Limits/Containment.antt =====
-- app/quotas/containment.py: the caps on active jobs.
use task_scheduler_mcp.Store.{is_recurring, is_active, Job}
pub mod Caps
use task_scheduler_mcp.Common.{
  ℕ, zero, suc, ◌+◌, ◌-◌, ◌*◌, ◌/◌, ◌%◌, ◌≤◌, ◌<◌, String, ◌≡◌, refl, ◌∙◌, ◌≢◌, ◌↔◌, ◌⊎◌, inl, inr,
  Bool, true, false, ◌&&◌, ◌||◌, none, some, List, [], ◌∷◌, ◌++◌, str_eq, leb, ◌==◌, if◌then◌else◌,
  count,
}

pub record ContainmentLimits : Type 0 where
  pub active_recurring_per_user : ℕ
  pub active_total_per_user : ℕ
  pub global_active_recurring : ℕ

pub data ContainmentReason : Type 0 where
  active_recurring_per_user active_total_per_user global_active_recurring : ContainmentReason

pub data ContainmentDecision : Type 0 where
  allow : ContainmentDecision
  reject : (reason : ContainmentReason) → (retry_after_seconds : ℕ) → ContainmentDecision

-- `_RETRY_AFTER`
abbrev pub retry_after : ℕ
retry_after = 60

-- The WHERE clauses of the three counts.
abbrev pub is_active_of : String → Job → Bool
is_active_of user_id j = str_eq j.user_id user_id && is_active j.state

abbrev pub is_active_recurring : Job → Bool
is_active_recurring j = is_active j.state && is_recurring j.job_type

abbrev pub is_active_recurring_of : String → Job → Bool
is_active_recurring_of user_id j = str_eq j.user_id user_id && is_active_recurring j

unfoldable pub check_containment :
    String → List Job → ContainmentLimits → Bool → ContainmentDecision
check_containment user_id jobs limits is_operator =
    if is_operator
    then allow
    else if leb limits.active_recurring_per_user (count (is_active_recurring_of user_id) jobs)
    then reject active_recurring_per_user retry_after
    else if leb limits.active_total_per_user (count (is_active_of user_id) jobs)
    then reject active_total_per_user retry_after
    else if leb limits.global_active_recurring (count is_active_recurring jobs)
    then reject global_active_recurring retry_after
    else allow
