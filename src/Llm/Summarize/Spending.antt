-- ===== src/Llm/Summarize/Spending.antt =====
-- What a summary spends.
use task_scheduler_mcp.Secrets.Resolver.{append}
use task_scheduler_mcp.Actions.UpstreamReader.{terminal, resolved, Resolved}
use task_scheduler_mcp.Llm.Budget.Waits.{check_token_budget-Decides, Decides, IsMoment}
use task_scheduler_mcp.Llm.Budget.Totals.{record_token_usage-Adds, same_date_self, IsKeyed}
use task_scheduler_mcp.Llm.Summarize.{
  truncate, completed, llm_failed, resolve_input, LlmAnswer, by_input, by_budget, by_llm_answer,
  Summarized, LlmSummarizeParams, summarized, summarize, Model, SummaryResult,
}
use task_scheduler_mcp.Llm.Budget.{
  month_start, since, tokens_of, BudgetDecision, record_token_usage, is_above_ceiling, used_today,
  LlmTokenBudget, allow, daily_budget_exceeded, global_ceiling_exceeded,
}
use task_scheduler_mcp.Common.{
  ℕ, ◌+◌, ◌≤◌, ◌<◌, String, ◌≡◌, refl, ◌⊎◌, inl, inr, Bool, true, false, List, arith, eq_refl,
  if◌then◌else◌, Bool-cases,
}

abbrev is_summary : SummaryResult → Bool
is_summary (summarized content tokens) = true
is_summary _ = false

-- The tokens that are recorded: those of a summary, where that transaction succeeds.
abbrev pub spent : Model → SummaryResult → ℕ
spent model (summarized content tokens) = if model.recorded then tokens else 0
spent model _ = 0

-- Either there was no call, no summary and no spending, or one call of a user below the daily budget in
-- a month below the ceiling, and the user's use of the date has grown by what is recorded.
abbrev pub Spends : Model → String → List LlmTokenBudget → Summarized → Type 0
Spends model user_id rows x =
    ((x.calls ≡ 0) × (x.rows ≡ rows) × (is_summary x.result ≡ false))
    ⊎ ((x.calls ≡ 1)
        × (used_today user_id model.checked_at.date rows < model.limits.daily_per_user)
        × (is_above_ceiling model.limits.global_monthly
              (tokens_of (since (month_start model.checked_at.date)) rows)
            ≡ false)
        × (used_today user_id model.recorded_at.date x.rows
            ≡ used_today user_id model.recorded_at.date rows + spent model x.result))

module _ (model : Model) (user_id : String) (rows : List LlmTokenBudget) (keyed : IsKeyed rows)
    (some_day : 1 ≤ model.recorded_at.date.day) where
  -- A recorded usage of the user's own date.
  own_use :
      (n : ℕ)
      → used_today user_id model.recorded_at.date
          (record_token_usage user_id rows n model.recorded_at)
        ≡ used_today user_id model.recorded_at.date rows + n
  own_use n =
      rw (eq_refl user_id, same_date_self model.recorded_at.date) at
        (record_token_usage-Adds user_id n model.recorded_at rows keyed user_id
          model.recorded_at.date some_day).1

  answer-grows :
      (a : LlmAnswer)
      → let x = by_llm_answer model user_id rows a in
        (x.calls ≡ 1)
        × (used_today user_id model.recorded_at.date x.rows
            ≡ used_today user_id model.recorded_at.date rows + spent model x.result)
  unfolding by_llm_answer
  answer-grows (llm_failed retryable) = (refl, omega arith)
  answer-grows (completed content tokens) = elim (Bool-cases model.recorded) [
    | inl written ↦ (refl, rw written (own_use tokens))
    | inr lost ↦ (refl, rw lost (omega arith))
  ]

  by_budget-Spends :
      (input : String) (d : BudgetDecision)
      → Decides user_id rows model.limits model.checked_at d
      → Spends model user_id rows (by_budget model user_id input rows d)
  unfolding by_budget
  by_budget-Spends input (daily_budget_exceeded seconds) h = inl (refl, refl, refl)
  by_budget-Spends input (global_ceiling_exceeded seconds) h = inl (refl, refl, refl)
  by_budget-Spends input allow h = elim (Bool-cases model.has_api_key) [
    | inr keyless ↦ rw keyless (inl (refl, refl, refl))
    | inl key ↦
        let grown =
          answer-grows
            (model.complete (append "INPUT:\n" (truncate model.max_input_chars input))) in
        rw key (inr (grown.0, h.0, h.1, grown.1))
  ]

  pub by_input-Spends :
      (i : Resolved)
      → IsMoment model.checked_at
      → Spends model user_id rows (by_input model user_id rows i)
  unfolding by_input
  by_input-Spends terminal moment = inl (refl, refl, refl)
  by_input-Spends (resolved input) moment =
      by_budget-Spends input _
        (check_token_budget-Decides user_id rows model.limits model.checked_at moment)

-- An execution of llm_summarize either makes no call of the provider, gives no summary and spends
-- nothing, or makes one call, for a user below the daily budget in a month below the ceiling, after
-- which the user's use of the date has grown by the tokens of the summary where their record
-- succeeds, and by nothing where the record or the call fails.
pub summarize-Spends :
    (model : Model) (params : LlmSummarizeParams) (user_id : String) (rows : List LlmTokenBudget)
    → IsKeyed rows
    → IsMoment model.checked_at
    → 1 ≤ model.recorded_at.date.day
    → Spends model user_id rows (summarize model params user_id rows)
unfolding summarize
summarize-Spends model params user_id rows keyed moment some_day =
    by_input-Spends model user_id rows keyed some_day (resolve_input model params user_id) moment
