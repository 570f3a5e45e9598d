-- ===== src/Actions/UpstreamReader.antt =====
-- app/chain/upstream_reader.py. `loads` is `json.loads`, which gives the parsed data by its text, and
-- `shows` is the text of a stored message.
use task_scheduler_mcp.Store.{run_of, Db, JobRun, Message}
pub mod Scope
use task_scheduler_mcp.Common.{
  ℕ, zero, suc, ◌+◌, ◌-◌, ◌*◌, ◌/◌, ◌%◌, ◌≤◌, ◌<◌, String, ◌≡◌, refl, ◌∙◌, ◌≢◌, ◌↔◌, ◌⊎◌, inl, inr,
  Bool, true, false, ◌&&◌, ◌||◌, Option, none, some, [], ◌∷◌, ◌++◌, str_eq, ◌==◌, if◌then◌else◌,
  head?, select,
}

pub data UpstreamPayload : Type 0 where
  parsed upstream_error invalid_json : (s : String) → UpstreamPayload
  no_result : UpstreamPayload

pub record Reader : Type 0 where
  pub loads : String → Option String
  pub shows : Message → String

-- `JobRun.run_id == run_id, JobRun.user_id == user_id`
abbrev pub is_own_run : String → ℕ → JobRun → Bool
is_own_run user_id run_id r = run_of run_id r && str_eq r.user_id user_id

-- `if run.error_message`
abbrev of_message : String → UpstreamPayload
of_message message = if str_eq message "" then no_result else upstream_error message

abbrev of_result : Reader → String → UpstreamPayload
of_result reader result = elim (reader.loads result) [
  | none ↦ invalid_json result
  | some value ↦ parsed value
]

abbrev payload_of : Reader → Option String → Option Message → UpstreamPayload
payload_of reader (some result) message = of_result reader result
payload_of reader none none = no_result
payload_of reader none (some message) = of_message (reader.shows message)

unfoldable pub read_upstream : Reader → ℕ → Db → String → UpstreamPayload
read_upstream reader run_id db user_id = elim (head? (select (is_own_run user_id run_id) db.runs)) [
  | none ↦ no_result
  | some run ↦ payload_of reader run.result run.error_message
]

-- A formatter by its two modes, and the text of an invalid result, which is cut at 100 characters.
pub record Formatter : Type 0 where
  pub format : String → String
  pub format_error : String → String
  pub invalid : String → String

abbrev pub display : Formatter → UpstreamPayload → String
display formatter (parsed value) = formatter.format value
display formatter (upstream_error message) = formatter.format_error message
display formatter no_result = formatter.format_error "(no result)"
display formatter (invalid_json raw) = formatter.format_error (formatter.invalid raw)

unfoldable pub resolve_for_display : Reader → ℕ → Db → Formatter → String → String
unfolding read_upstream
resolve_for_display reader run_id db formatter user_id =
    display formatter (read_upstream reader run_id db user_id)

-- `on_invalid_json`, and the answer of a terminal ActionResult.
pub data OnInvalidJson : Type 0 where
  accept_raw fail : OnInvalidJson

pub data Resolved : Type 0 where
  resolved : (s : String) → Resolved
  terminal : Resolved

abbrev pub resolve : OnInvalidJson → UpstreamPayload → Resolved
resolve on_invalid (parsed value) = resolved value
resolve on_invalid (upstream_error message) = terminal
resolve on_invalid no_result = terminal
resolve accept_raw (invalid_json raw) = resolved raw
resolve fail (invalid_json raw) = terminal

unfoldable pub resolve_or_terminal : Reader → ℕ → Db → OnInvalidJson → String → Resolved
unfolding read_upstream
resolve_or_terminal reader run_id db on_invalid_json user_id =
    resolve on_invalid_json (read_upstream reader run_id db user_id)
