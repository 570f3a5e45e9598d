-- ===== src/Llm/Summarize.antt =====
-- `LlmSummarizeHandler.execute` of app/actions/llm_summarize.py. The provider is the parameter
-- `complete`, a function of the user's message; the system prompt is left out. `recorded` tells whether
-- the transaction that records the usage succeeds.
use task_scheduler_mcp.Store.{Db}
use task_scheduler_mcp.Secrets.Resolver.{append}
use task_scheduler_mcp.Actions.UpstreamReader.{
  terminal, accept_raw, resolved, Resolved, resolve_or_terminal, Reader,
}
use task_scheduler_mcp.Llm.Budget.{
  allow, global_ceiling_exceeded, Instant, daily_budget_exceeded, TokenBudgetLimits, BudgetDecision,
  check_token_budget, record_token_usage, LlmTokenBudget,
}
pub mod Spending
use task_scheduler_mcp.Common.{
  ℕ, zero, suc, ◌+◌, ◌-◌, ◌*◌, ◌/◌, ◌%◌, ◌≤◌, ◌<◌, String, ◌≡◌, refl, ◌∙◌, ◌≢◌, ◌↔◌, ◌⊎◌, inl, inr,
  Bool, true, false, ◌&&◌, ◌||◌, Option, none, some, List, [], ◌∷◌, ◌++◌, ◌==◌, if◌then◌else◌,
}

pub data LlmAnswer : Type 0 where
  -- LLMClientError
  llm_failed : (retryable : Bool) → LlmAnswer
  completed : (content : String) → (total_tokens : ℕ) → LlmAnswer

-- The ActionResult, less its texts; `unconfigured` where the API key is missing, which raises.
pub data SummaryResult : Type 0 where
  summarized : (content : String) → (total_tokens : ℕ) → SummaryResult
  refused : (retryable : Bool) → SummaryResult
  unconfigured : SummaryResult

-- What an execution leaves: its result, the budgets, and how often it called the provider.
pub record Summarized : Type 0 where
  pub result : SummaryResult
  pub rows : List LlmTokenBudget
  pub calls : ℕ

pub record Model : Type 0 where
  pub reader : Reader
  pub db : Db
  pub max_input_chars : ℕ
  pub limits : TokenBudgetLimits
  pub has_api_key : Bool
  pub complete : String → LlmAnswer
  pub recorded : Bool
  -- the clock at the check, and at the record
  pub checked_at : Instant
  pub recorded_at : Instant

pub record LlmSummarizeParams : Type 0 where
  pub text : Option String
  pub from_run_id : ℕ

-- `text[:n]`
unfoldable pub truncate : ℕ → String → String
truncate zero s = ""
truncate (suc n) String.[] = ""
truncate (suc n) (String.◌∷◌ c s) = String.◌∷◌ c (truncate n s)

-- `_resolve_input`
unfoldable pub resolve_input : Model → LlmSummarizeParams → String → Resolved
unfolding resolve_or_terminal
resolve_input model params user_id = elim params.text [
  | some s ↦ resolved s
  | none ↦ resolve_or_terminal model.reader params.from_run_id model.db accept_raw user_id
]

abbrev without_call : SummaryResult → List LlmTokenBudget → Summarized
without_call result rows = record { result = result; rows = rows; calls = 0 }

-- The answer of the provider; a failure to record the usage is passed over.
abbrev pub by_llm_answer : Model → String → List LlmTokenBudget → LlmAnswer → Summarized
unfolding record_token_usage
by_llm_answer model user_id rows (llm_failed retryable) = record {
  result = refused retryable;
  rows = rows;
  calls = 1;
}
by_llm_answer model user_id rows (completed content total_tokens) = record {
  result = summarized content total_tokens;
  rows =
      if model.recorded
      then record_token_usage user_id rows total_tokens model.recorded_at
      else rows;
  calls = 1;
}

abbrev pub by_budget : Model → String → String → List LlmTokenBudget → BudgetDecision → Summarized
unfolding by_llm_answer append truncate
by_budget model user_id input rows (daily_budget_exceeded seconds) =
    without_call (refused false) rows
by_budget model user_id input rows (global_ceiling_exceeded seconds) =
    without_call (refused false) rows
by_budget model user_id input rows allow =
    if model.has_api_key
    then by_llm_answer model user_id rows
        (model.complete (append "INPUT:\n" (truncate model.max_input_chars input)))
    else without_call unconfigured rows

abbrev pub by_input : Model → String → List LlmTokenBudget → Resolved → Summarized
unfolding by_budget check_token_budget
by_input model user_id rows terminal = without_call (refused false) rows
by_input model user_id rows (resolved input) =
    by_budget model user_id input rows
      (check_token_budget user_id rows model.limits model.checked_at)

unfoldable pub summarize : Model → LlmSummarizeParams → String → List LlmTokenBudget → Summarized
unfolding by_input resolve_input
summarize model params user_id rows =
    by_input model user_id rows (resolve_input model params user_id)
