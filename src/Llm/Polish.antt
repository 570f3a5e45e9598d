-- ===== src/Llm/Polish.antt =====
-- `LlmPolishParams` and `LlmPolishHandler.execute` of app/actions/llm_polish.py. The steps after the
-- input are those of llm_summarize.
pub mod Spending
use task_scheduler_mcp.Actions.UpstreamReader.{Resolved, resolved, accept_raw, resolve_or_terminal}
use task_scheduler_mcp.Llm.Budget.{LlmTokenBudget}
use task_scheduler_mcp.Llm.PromptGuard.{sanitize_prompt_field}
use task_scheduler_mcp.Llm.Summarize.{Model, Summarized, by_input}
use task_scheduler_mcp.Common.{
  ℕ, String, Bool, true, false, not, Option, none, some, List, if◌then◌else◌,
}

pub data Tone : Type 0 where
  professional casual concise : Tone

pub record LlmPolishParams : Type 0 where
  pub from_run_id : Option ℕ
  pub text : Option String
  pub tone : Tone
  pub language : String

abbrev has_value : {A : Type 0} → Option A → Bool
has_value none = false
has_value (some a) = true

abbrev same_bool : Bool → Bool → Bool
same_bool true b = b
same_bool false b = not b

-- The validators: `none` stands for a ValueError.
unfoldable validate_params : LlmPolishParams → Option LlmPolishParams
unfolding sanitize_prompt_field
validate_params params =
    if same_bool (has_value params.from_run_id) (has_value params.text)
    then none
    else some (record params { language = sanitize_prompt_field params.language })

-- `_resolve_input`. Where neither is given no run is asked for, and there is no row.
unfoldable pub resolve_polish_input : Model → LlmPolishParams → String → Resolved
unfolding resolve_or_terminal
resolve_polish_input model params user_id = elim params.text [
  | some s ↦ resolved s
  | none ↦ elim params.from_run_id [
    | none ↦ Resolved.terminal
    | some run_id ↦ resolve_or_terminal model.reader run_id model.db accept_raw user_id
  ]
]

unfoldable pub polish : Model → LlmPolishParams → String → List LlmTokenBudget → Summarized
unfolding resolve_polish_input
polish model params user_id rows =
    by_input model user_id rows (resolve_polish_input model params user_id)
