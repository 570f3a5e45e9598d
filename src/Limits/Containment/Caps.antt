-- ===== src/Limits/Containment/Caps.antt =====
-- The caps hold over every job that the check lets in.
use task_scheduler_mcp.Store.{Job}
use task_scheduler_mcp.Limits.Containment.{
  is_active_recurring, is_active_of, is_active_recurring_of, check_containment, ContainmentDecision,
  ContainmentLimits, allow, reject,
}
use task_scheduler_mcp.Common.{
  ◌≤◌, ◌<◌, String, ◌≡◌, sym, ap, ◌∙◌, inl, inr, Bool, true, false, List, ◌∷◌, arith, str_eq,
  eq_iff, Bool-cases, count,
}

-- No user and not the whole table is above a cap.
pub record IsContained (limits : ContainmentLimits) (jobs : List Job) : Type 0 where
  pub recurring :
      (u : String) → count (is_active_recurring_of u) jobs ≤ limits.active_recurring_per_user
  pub total : (u : String) → count (is_active_of u) jobs ≤ limits.active_total_per_user
  pub all_recurring : count is_active_recurring jobs ≤ limits.global_active_recurring

-- What an answer of `allow` to a user says of the counts.
record IsBelow (user_id : String) (limits : ContainmentLimits) (jobs : List Job) : Type 0 where
  pub recurring : count (is_active_recurring_of user_id) jobs < limits.active_recurring_per_user
  pub total : count (is_active_of user_id) jobs < limits.active_total_per_user
  pub all_recurring : count is_active_recurring jobs < limits.global_active_recurring

is_allow : ContainmentDecision → Bool
is_allow allow = true
is_allow (reject reason seconds) = false

check_containment-IsBelow :
    (user_id : String) (jobs : List Job) (limits : ContainmentLimits)
    → check_containment user_id jobs limits false ≡ allow
    → IsBelow user_id limits jobs
unfolding check_containment is_allow
check_containment-IsBelow user_id jobs limits h =
    let e = ap is_allow h in
    record {
      recurring = ground (arith, e);
      total = ground (arith, e);
      all_recurring = ground (arith, e);
    }

-- A job that is created for a user whom the check lets in, and who is no operator, leaves every user
-- and the whole table within the caps, whatever the job.
pub check_containment-IsContained :
    (user_id : String) (jobs : List Job) (limits : ContainmentLimits) (new : Job)
    → check_containment user_id jobs limits false ≡ allow
    → new.user_id ≡ user_id
    → IsContained limits jobs
    → IsContained limits (new ∷ jobs)
check_containment-IsContained user_id jobs limits new let_in own h =
    let below = check_containment-IsBelow user_id jobs limits let_in in
    record {
      recurring = λ u. elim (Bool-cases (str_eq new.user_id u)) [
        | inl same ↦
            let e : user_id ≡ u = sym own ∙ (eq_iff new.user_id u).0 same in
            let room : count (is_active_recurring_of u) jobs < limits.active_recurring_per_user =
              rw e at below.recurring in
            ground (arith, room)
        | inr other ↦ ground (arith, other, h.recurring u)
      ];
      total = λ u. elim (Bool-cases (str_eq new.user_id u)) [
        | inl same ↦
            let e : user_id ≡ u = sym own ∙ (eq_iff new.user_id u).0 same in
            let room : count (is_active_of u) jobs < limits.active_total_per_user =
              rw e at below.total in
            ground (arith, room)
        | inr other ↦ ground (arith, other, h.total u)
      ];
      all_recurring = ground (arith, below.all_recurring);
    }
