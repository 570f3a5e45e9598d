-- ===== src/Llm/Budget.antt =====
-- app/llm/budget.py, over the rows of `llm_token_budgets`. An instant is a calendar date of UTC and the
-- microseconds since its midnight.
use task_scheduler_mcp.Store.{second, hour}
pub mod Totals
pub mod Waits
use task_scheduler_mcp.Common.{
  max, ℕ, zero, suc, ◌+◌, ◌-◌, ◌*◌, ◌/◌, ◌%◌, ◌≤◌, ◌<◌, String, ◌≡◌, refl, ◌∙◌, ◌≢◌, ◌↔◌, ◌⊎◌, inl,
  inr, Bool, true, false, not, ◌&&◌, ◌||◌, Option, none, some, List, [], ◌∷◌, ◌++◌, str_eq, ltb,
  leb, ◌==◌, if◌then◌else◌, head?, select, update, exists,
}

pub record Date : Type 0 where
  pub year : ℕ
  pub month : ℕ
  pub day : ℕ

pub record Instant : Type 0 where
  pub date : Date
  pub time : ℕ

-- A row, less `updated_at`.
pub record LlmTokenBudget : Type 0 where
  pub user_id : String
  pub budget_date : Date
  pub tokens_used : ℕ

pub record TokenBudgetLimits : Type 0 where
  pub daily_per_user : ℕ
  pub global_monthly : Option ℕ

pub data BudgetDecision : Type 0 where
  allow : BudgetDecision
  daily_budget_exceeded global_ceiling_exceeded : (retry_after_seconds : ℕ) → BudgetDecision

abbrev pub day_length : ℕ
day_length = 24 * hour

abbrev pub is_leap : ℕ → Bool
is_leap y = ((y % 4) == 0) && (not ((y % 100) == 0) || ((y % 400) == 0))

abbrev pub days_in_month : ℕ → ℕ → ℕ
days_in_month y m =
    if m == 2
    then (if is_leap y then 29 else 28)
    else if (m == 4) || ((m == 6) || ((m == 9) || (m == 11)))
    then 30
    else 31

abbrev pub same_date : Date → Date → Bool
same_date a b = (a.year == b.year) && ((a.month == b.month) && (a.day == b.day))

-- `a <= b` of dates.
abbrev date_le : Date → Date → Bool
date_le a b =
    ltb a.year b.year
    || ((a.year == b.year) && (ltb a.month b.month || ((a.month == b.month) && leb a.day b.day)))

-- `max(1, math.ceil(….total_seconds()))`
abbrev pub whole_seconds : ℕ → ℕ
whole_seconds d = max 1 ((d + 999999) / second)

unfoldable pub seconds_until_utc_midnight : Instant → ℕ
seconds_until_utc_midnight now = whole_seconds (day_length - now.time)

-- The days before a year, and before a month of a year. Years and months are summed from 0: what
-- stands before the first ones cancels out of a difference of dates.
abbrev pub days_before_year : ℕ → ℕ
days_before_year zero = 0
days_before_year (suc y) = days_before_year y + (if is_leap y then 366 else 365)

abbrev pub days_before_month : ℕ → ℕ → ℕ
days_before_month y zero = 0
days_before_month y (suc m) = days_before_month y m + days_in_month y m

-- `datetime(d.year, d.month, d.day, tzinfo=UTC)`, in microseconds.
abbrev pub midnight_of : Date → ℕ
midnight_of d = (days_before_year d.year + days_before_month d.year d.month + d.day) * day_length

-- `first_of_next`: the year rolls over in December.
abbrev pub first_of_next : Date → Date
first_of_next d =
    if d.month == 12
    then record { year = d.year + 1; month = 1; day = 1 }
    else record { year = d.year; month = d.month + 1; day = 1 }

unfoldable pub seconds_until_next_month : Instant → ℕ
seconds_until_next_month now =
    whole_seconds (midnight_of (first_of_next now.date) - (midnight_of now.date + now.time))

abbrev pub month_start : Date → Date
month_start d = record d { day = 1 }

-- `coalesce(sum(tokens_used), 0)` over the rows that `p` picks.
unfoldable pub tokens_of : (LlmTokenBudget → Bool) → List LlmTokenBudget → ℕ
tokens_of p [] = 0
tokens_of p (r ∷ rs) = (if p r then r.tokens_used else 0) + tokens_of p rs

abbrev pub since : Date → LlmTokenBudget → Bool
since d r = date_le d r.budget_date

-- The primary key.
abbrev pub is_for : String → Date → LlmTokenBudget → Bool
is_for user_id d r = str_eq r.user_id user_id && same_date r.budget_date d

abbrev pub used_or_zero : Option LlmTokenBudget → ℕ
used_or_zero none = 0
used_or_zero (some r) = r.tokens_used

-- `user_today`
abbrev pub used_today : String → Date → List LlmTokenBudget → ℕ
used_today user_id today rows = used_or_zero (head? (select (is_for user_id today) rows))

abbrev pub is_above_ceiling : Option ℕ → ℕ → Bool
is_above_ceiling none total = false
is_above_ceiling (some ceiling) total = leb ceiling total

unfoldable pub check_token_budget :
    String → List LlmTokenBudget → TokenBudgetLimits → Instant → BudgetDecision
unfolding tokens_of seconds_until_next_month seconds_until_utc_midnight
check_token_budget user_id rows limits now =
    if is_above_ceiling limits.global_monthly (tokens_of (since (month_start now.date)) rows)
    then global_ceiling_exceeded (seconds_until_next_month now)
    else if leb limits.daily_per_user (used_today user_id now.date rows)
    then daily_budget_exceeded (seconds_until_utc_midnight now)
    else allow

-- `INSERT … ON CONFLICT (user_id, budget_date) DO UPDATE`
unfoldable pub record_token_usage : String → List LlmTokenBudget → ℕ → Instant → List LlmTokenBudget
record_token_usage user_id rows tokens_used now =
    if exists (is_for user_id now.date) rows
    then update (is_for user_id now.date)
        (λ r. record r { tokens_used = r.tokens_used + tokens_used }) rows
    else record { user_id = user_id; budget_date = now.date; tokens_used = tokens_used } ∷ rows
