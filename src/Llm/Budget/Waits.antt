-- ===== src/Llm/Budget/Waits.antt =====
-- What the decision on a budget says.
use task_scheduler_mcp.Llm.Budget.Totals.{same_date_self, record_token_usage-Adds, IsKeyed}
use task_scheduler_mcp.Store.{second}
use task_scheduler_mcp.Llm.Budget.{
  global_ceiling_exceeded, midnight_of, first_of_next, days_before_year, days_before_month, is_leap,
  daily_budget_exceeded, month_start, since, record_token_usage, tokens_of, allow, is_above_ceiling,
  used_today, seconds_until_utc_midnight, BudgetDecision, day_length, seconds_until_next_month,
  TokenBudgetLimits, days_in_month, check_token_budget, LlmTokenBudget, whole_seconds, Instant,
}
use task_scheduler_mcp.Common.{
  refl, suc, ==_iff, ◌==◌, if◌then◌else◌, ℕ, ◌+◌, ◌-◌, ◌*◌, ◌≤◌, ◌<◌, String, ◌≡◌, inl, inr, true,
  false, List, arith, eq_refl, leb, Bool-cases,
}

-- A moment of a calendar day.
abbrev pub IsMoment : Instant → Type 0
IsMoment now =
    (1 ≤ now.date.day)
    × (now.date.day ≤ days_in_month now.date.year now.date.month)
    × (now.time < day_length)

-- The wait covers the distance `d`, by less than a second more.
abbrev Covers : ℕ → ℕ → Type 0
Covers seconds d = (1 ≤ seconds) × (d ≤ seconds * second) × (seconds * second < d + second)

whole_seconds-Covers : (d : ℕ) → 1 ≤ d → Covers (whole_seconds d) d
whole_seconds-Covers d some_left = (omega arith, omega (arith, some_left), omega (arith, some_left))

-- The days of the month that are left, today included, less the time that has gone today.
abbrev pub rest_of_month : Instant → ℕ
rest_of_month now =
    (days_in_month now.date.year now.date.month + 1 - now.date.day) * day_length - now.time

-- A year has as many days as its months.
year_length :
    (y : ℕ) → days_before_month y 12 + 31 ≡ days_before_month y 1 + (if is_leap y then 366 else 365)
year_length y = elim (Bool-cases (is_leap y)) [
  | inl leap ↦ rw leap (omega arith)
  | inr common ↦ rw common (omega arith)
]

next_year :
    (y : ℕ) → days_before_year (y + 1) ≡ days_before_year y + (if is_leap y then 366 else 365)
next_year y = let e : y + 1 ≡ suc y = omega arith in rw e refl

next_month : (y m : ℕ) → days_before_month y (m + 1) ≡ days_before_month y m + days_in_month y m
next_month y m = let e : m + 1 ≡ suc m = omega arith in rw e refl

gap :
    (first here length_of_month day time : ℕ)
    → first ≡ here + length_of_month + 1
    → first * day_length - ((here + day) * day_length + time)
      ≡ (length_of_month + 1 - day) * day_length - time
gap first here length_of_month day time h = omega arith

-- The difference of the instants is the rest of the month.
until_first :
    (now : Instant)
    → midnight_of (first_of_next now.date) - (midnight_of now.date + now.time) ≡ rest_of_month now
until_first now =
    let y : ℕ = now.date.year in
    elim (Bool-cases (now.date.month == 12)) [
      | inl december ↦
          let last : now.date.month ≡ 12 = (==_iff now.date.month 12).0 december in
          rw last (
            gap _ (days_before_year y + days_before_month y 12) 31 now.date.day now.time
              (omega (arith, year_length y, next_year y)))
      | inr other ↦ rw other (
          gap _ (days_before_year y + days_before_month y now.date.month)
            (days_in_month y now.date.month) now.date.day now.time
            (omega (arith, next_month y now.date.month)))
    ]

abbrev pub Decides :
    String → List LlmTokenBudget → TokenBudgetLimits → Instant → BudgetDecision → Type 0
Decides user_id rows limits now allow =
    (used_today user_id now.date rows < limits.daily_per_user)
    × (is_above_ceiling limits.global_monthly (tokens_of (since (month_start now.date)) rows)
        ≡ false)
Decides user_id rows limits now (daily_budget_exceeded seconds) =
    (limits.daily_per_user ≤ used_today user_id now.date rows)
    × Covers seconds (day_length - now.time)
Decides user_id rows limits now (global_ceiling_exceeded seconds) =
    (is_above_ceiling limits.global_monthly (tokens_of (since (month_start now.date)) rows) ≡ true)
    × Covers seconds (rest_of_month now)

pub check_token_budget-Decides :
    (user_id : String) (rows : List LlmTokenBudget) (limits : TokenBudgetLimits) (now : Instant)
    → IsMoment now
    → Decides user_id rows limits now (check_token_budget user_id rows limits now)
unfolding check_token_budget seconds_until_next_month seconds_until_utc_midnight
check_token_budget-Decides user_id rows limits now moment =
    elim (Bool-cases
      (is_above_ceiling limits.global_monthly (tokens_of (since (month_start now.date)) rows))) [
        | inl above ↦
            let left : 1 ≤ rest_of_month now = omega (arith, moment.0, moment.1, moment.2) in
            rw (above, until_first now) (above, whole_seconds-Covers _ left)
        | inr below ↦
            elim (Bool-cases (leb limits.daily_per_user (used_today user_id now.date rows))) [
              | inl spent ↦
                  let left : 1 ≤ day_length - now.time = omega (arith, moment.2) in
                  rw (below, spent) (ground (arith, spent), whole_seconds-Covers _ left)
              | inr room ↦ rw (below, room) (ground (arith, room), below)
            ]
      ]

-- A user who was let in and then spends tokens has used less on that date than the daily budget and
-- those tokens together.
record_token_usage-bounded :
    (user_id : String) (rows : List LlmTokenBudget) (limits : TokenBudgetLimits) (now : Instant)
    (tokens_used : ℕ)
    → IsMoment now
    → IsKeyed rows
    → check_token_budget user_id rows limits now ≡ allow
    → used_today user_id now.date (record_token_usage user_id rows tokens_used now)
      < limits.daily_per_user + tokens_used
record_token_usage-bounded user_id rows limits now tokens_used moment keyed let_in =
    let before = rw let_in at (check_token_budget-Decides user_id rows limits now moment) in
    let after =
      record_token_usage-Adds user_id tokens_used now rows keyed user_id now.date moment.0 in
    let self = rw (eq_refl user_id, same_date_self now.date) at after.1 in
    omega (arith, before.0, self)
