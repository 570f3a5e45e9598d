-- ===== src/Llm.antt =====
-- app/llm: the actions that call a language model.
pub mod Budget
pub mod PromptGuard
pub mod Summarize
pub mod Polish
