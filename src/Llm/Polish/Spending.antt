-- ===== src/Llm/Polish/Spending.antt =====
-- What the two actions that call a language model spend.
use task_scheduler_mcp.Llm.Budget.{LlmTokenBudget}
use task_scheduler_mcp.Llm.Budget.Totals.{IsKeyed}
use task_scheduler_mcp.Llm.Budget.Waits.{IsMoment}
use task_scheduler_mcp.Llm.Polish.{LlmPolishParams, polish, resolve_polish_input}
use task_scheduler_mcp.Llm.Summarize.{Model, LlmSummarizeParams, summarize}
use task_scheduler_mcp.Llm.Summarize.Spending.{Spends, by_input-Spends, summarize-Spends}
use task_scheduler_mcp.Common.{◌≤◌, String, List}

-- An execution of llm_summarize or of llm_polish either makes no call of the provider, gives no
-- text and spends nothing, or makes one call, for a user below the daily budget in a month below
-- the ceiling, after which the user's use of the date has grown by the tokens of the answer where
-- their record succeeds, and by nothing where the record or the call fails; the rows have one for
-- each user and date before, and the instants are of the calendar.
pub actions-Spend :
    (model : Model) (to_summarize : LlmSummarizeParams) (to_polish : LlmPolishParams)
    (user_id : String) (rows : List LlmTokenBudget)
    → IsKeyed rows
    → 1 ≤ model.recorded_at.date.day
    → IsMoment model.checked_at
    → Spends model user_id rows (summarize model to_summarize user_id rows)
      × Spends model user_id rows (polish model to_polish user_id rows)
unfolding polish
actions-Spend model to_summarize to_polish user_id rows keyed some_day moment = (
  summarize-Spends model to_summarize user_id rows keyed moment some_day,
  by_input-Spends model user_id rows keyed some_day (resolve_polish_input model to_polish user_id)
      moment,
)
