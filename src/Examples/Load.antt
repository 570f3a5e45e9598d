-- ===== src/Examples/Load.antt =====
-- The theorems on the budgets and on the load, applied.
use task_scheduler_mcp.Llm.Summarize.{completed}
use task_scheduler_mcp.Examples.{sample}
use task_scheduler_mcp.Llm.Summarize.Spending.{Spends}
use task_scheduler_mcp.Llm.Polish.{LlmPolishParams, polish, professional}
use task_scheduler_mcp.Llm.Polish.Spending.{actions-Spend}
use task_scheduler_mcp.Llm.Summarize.{summarized, summarize, LlmSummarizeParams, Model}
use task_scheduler_mcp.Store.{hour}
use task_scheduler_mcp.Overload.Limiter.Capacity.{run-spec_run, spec_run, Counts}
use task_scheduler_mcp.Overload.Limiter.{leaves, run, enters, Event, Traffic}
use task_scheduler_mcp.Llm.Budget.Totals.{IsKeyed}
use task_scheduler_mcp.Llm.Budget.{TokenBudgetLimits, LlmTokenBudget, Instant, Date}
use task_scheduler_mcp.Common.{none, true, ◌*◌, ◌≡◌, refl, some, List, [], ◌∷◌, arith}

abbrev today : Date
today = record { year = 2024; month = 2; day = 29 }

abbrev now : Instant
now = record { date = today; time = 3 * hour }

abbrev rows : List LlmTokenBudget
rows = record { user_id = "ann"; budget_date = today; tokens_used = 900 } ∷ []

rows-IsKeyed : IsKeyed rows
rows-IsKeyed = λ user_id d. ground arith

abbrev limits : TokenBudgetLimits
limits = record { daily_per_user = 1000; global_monthly = some 10000 }

abbrev idle : Traffic
idle = record { limiter = record { limit = 1; inflight = 0 }; inside = [] }

abbrev events : List Event
events = enters 7 ∷ enters 8 ∷ leaves 7 ∷ enters 8 ∷ []

idle-Counts : Counts 1 idle
idle-Counts = record { same_limit = refl; counted = refl; fits = ground arith }

run-spec_run_example :
    Counts 1 (run events idle).1 × ((run events idle).0 ≡ (spec_run 1 events []).0)
run-spec_run_example = run-spec_run 1 events idle idle-Counts

abbrev model : Model
model = record {
  reader = record { loads = λ s. some s; shows = λ m. "failed" };
  db = sample;
  max_input_chars = 4;
  limits = limits;
  has_api_key = true;
  complete = λ message. completed message 300;
  recorded = true;
  checked_at = now;
  recorded_at = now;
}

abbrev params : LlmSummarizeParams
params = record { text = some "a long text"; from_run_id = 0 }

summary : (summarize model params "ann" rows).result ≡ summarized "INPUT:\na lo" 300
unfolding summarize
summary = refl

abbrev to_polish : LlmPolishParams
to_polish = record { from_run_id = none; text = some "hello"; tone = professional; language = "en" }

actions-Spend_example :
    Spends model "ann" rows (summarize model params "ann" rows)
    × Spends model "ann" rows (polish model to_polish "ann" rows)
actions-Spend_example =
    actions-Spend model params to_polish "ann" rows rows-IsKeyed (ground arith)
      (ground arith, ground arith, ground arith)
