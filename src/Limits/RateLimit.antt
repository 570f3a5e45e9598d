-- ===== src/Limits/RateLimit.antt =====
-- app/ratelimit/checker.py: two sliding windows over a user's creations.
use task_scheduler_mcp.Store.Session.{ok, type_error, err, Result}
use task_scheduler_mcp.Store.{hour, minute, second, Job}
pub mod Waiting
use task_scheduler_mcp.Common.{
  max, min, ℕ, zero, suc, ◌+◌, ◌-◌, ◌*◌, ◌/◌, ◌%◌, ◌≤◌, ◌<◌, String, ◌≡◌, refl, ◌∙◌, ◌≢◌, ◌↔◌, ◌⊎◌,
  inl, inr, Bool, true, false, ◌&&◌, ◌||◌, Option, none, some, List, [], ◌∷◌, ◌++◌, str_eq, ltb,
  leb, ◌==◌, if◌then◌else◌, length, select,
}

pub record RateLimits : Type 0 where
  pub daily : ℕ
  pub burst : ℕ

pub data RateReason : Type 0 where
  daily burst : RateReason

pub data RateLimitDecision : Type 0 where
  allow : RateLimitDecision
  reject : (reason : RateReason) → (retry_after_seconds : ℕ) → RateLimitDecision

-- `created_at > now - window` for the user's jobs.
abbrev pub in_window : String → ℕ → ℕ → Job → Bool
in_window user_id now window j = str_eq j.user_id user_id && ltb now (j.created_at + window)

-- `min(Job.created_at)`: NULL over no rows.
pub oldest : List Job → Option ℕ
oldest [] = none
oldest (j ∷ js) =
    let rest = oldest js in
    elim rest [ none ↦ some j.created_at | some t ↦ some (min j.created_at t) ]

-- `max(1, math.ceil((oldest + window - now).total_seconds()))`
abbrev pub seconds_left : ℕ → ℕ → ℕ → ℕ
seconds_left now window t = max 1 ((t + window - now + 999999) / second)

-- One window: `none` lets the check go on. A limit of zero with an empty window adds a delta to None,
-- which raises TypeError: `err`.
abbrev pub answer : RateReason → ℕ → ℕ → Option ℕ → Result RateLimitDecision
answer reason now window none = err type_error
answer reason now window (some t) = ok (reject reason (seconds_left now window t))

unfoldable pub check_window :
    RateReason → String → ℕ → ℕ → ℕ → List Job → Option (Result RateLimitDecision)
unfolding oldest
check_window reason user_id now window limit jobs =
    let rows = select (in_window user_id now window) jobs in
    if leb limit (length rows) then some (answer reason now window (oldest rows)) else none

unfoldable pub check_rate_limit : String → List Job → RateLimits → ℕ → Result RateLimitDecision
unfolding check_window
check_rate_limit user_id jobs limits now =
    elim (check_window burst user_id now minute limits.burst jobs) [
      | some decision ↦ decision
      | none ↦ elim (check_window daily user_id now (24 * hour) limits.daily jobs) [
        | some decision ↦ decision
        | none ↦ ok allow
      ]
    ]
