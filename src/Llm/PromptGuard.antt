-- ===== src/Llm/PromptGuard.antt =====
-- app/llm/prompt_guard.py.
pub mod OneLine
use Prim.Native.Char.{code}
use task_scheduler_mcp.Common.{ℕ, String, not, ◌&&◌, List, [], ◌∷◌, leb, ◌==◌, if◌then◌else◌}

-- `_LINE_SEPARATORS`
abbrev pub line_separators : List ℕ
line_separators = 13 ∷ (10 ∷ (133 ∷ (8232 ∷ (8233 ∷ []))))

-- `value.replace(sep, " ")`
pub replace_with_space : ℕ → String → String
replace_with_space sep String.[] = String.[]
replace_with_space sep (String.◌∷◌ c s) =
    let rest = replace_with_space sep s in
    if code c == sep then String.◌∷◌ " " rest else String.◌∷◌ c rest

-- The loop over the separators.
pub replace_each : List ℕ → String → String
unfolding replace_with_space
replace_each [] value = value
replace_each (sep ∷ seps) value = replace_each seps (replace_with_space sep value)

-- The characters from the space on, but for DEL.
pub drop_controls : String → String
drop_controls String.[] = String.[]
drop_controls (String.◌∷◌ c s) =
    let rest = drop_controls s in
    if leb 32 (code c) && not (code c == 127) then String.◌∷◌ c rest else rest

unfoldable pub sanitize_prompt_field : String → String
unfolding replace_each replace_with_space drop_controls
sanitize_prompt_field value = drop_controls (replace_each line_separators value)
