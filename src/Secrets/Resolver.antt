-- ===== src/Secrets/Resolver.antt =====
-- app/secrets/resolver.py. A raised SecretResolutionError is `none`; the environment is a function.
use task_scheduler_mcp.Common.{
  String, true, false, not, ◌&&◌, Option, none, some, List, [], ◌∷◌, ◌++◌, map, str_eq, ◌==◌,
  if◌then◌else◌, select,
}
use task_scheduler_mcp.Text.{strip}
use Prim.Native.Char.{Char}
use task_scheduler_mcp.Mcp.StatusMapping.{mem_text}
use task_scheduler_mcp.Secrets.Json.{
  Value, Values, Fields, string, array, object, scalar, end, item, empty, field,
}
use Prim.Native.Char.{code}

unfoldable pub append : String → String → String
append String.[] t = t
append (String.◌∷◌ c s) t = String.◌∷◌ c (append s t)

abbrev pub Env : Type 0
Env = String → Option String

-- `DEFAULT_WHITELIST`
abbrev default_whitelist : List String
default_whitelist =
    "ANTHROPIC_API_KEY"
    ∷ ("OPENAI_API_KEY"
        ∷ ("GOOGLE_API_KEY" ∷ ("SLACK_WEBHOOK_URL" ∷ ("GITHUB_TOKEN" ∷ ("GCAL_ICS_URL" ∷ [])))))

-- The first character joins the first part.
abbrev join_first : Char → List String → List String
join_first c [] = String.◌∷◌ c "" ∷ []
join_first c (part ∷ parts) = String.◌∷◌ c part ∷ parts

-- `s.split(",")`
unfoldable pub split_commas : String → List String
split_commas String.[] = "" ∷ []
split_commas (String.◌∷◌ c s) =
    let rest = split_commas s in if code c == 44 then "" ∷ rest else join_first c rest

-- `os.environ.get("ALLOWED_TEMPLATE_VARS", "")`, of what the environment has there.
abbrev or_empty : Option String → String
or_empty none = ""
or_empty (some s) = s

-- `{v.strip() for v in extra_raw.split(",") if v.strip()}`
abbrev extras : String → List String
unfolding strip split_commas
extras raw = select (λ v. not (str_eq v "")) (map strip (split_commas raw))

abbrev pub effective : Option String → List String
unfolding extras
effective allowed = default_whitelist ++ extras (or_empty allowed)

unfoldable pub build_effective_whitelist : Env → List String
unfolding effective
build_effective_whitelist env = effective (env "ALLOWED_TEMPLATE_VARS")

abbrev pub then_append : String → Option String → Option String
unfolding append
then_append s none = none
then_append s (some rest) = some (append s rest)

-- `_replace`: the value of a variable that the pattern found, which is not empty.
unfoldable pub replace : Env → List String → String → Option String
replace env whitelist name = if mem_text name whitelist then env name else none

-- `_replace` of the variable and the text after it.
abbrev pub substitute : Option String → Option String → Option String
substitute none rest = none
substitute (some value) rest = then_append value rest

-- `_VAR_PATTERN.sub(_replace, s)`: `some name` while the text is after a `${` and before its `}`, with
-- what stands between. A `${` without a name, or without an end, is no variable.
unfoldable pub resolve_from : Env → List String → Option String → String → Option String
unfolding replace then_append
resolve_from env whitelist none String.[] = some ""
resolve_from env whitelist none (String.◌∷◌ c String.[]) = some (String.◌∷◌ c "")
resolve_from env whitelist none (String.◌∷◌ c (String.◌∷◌ d s)) =
    elim ((code c == 36) && (code d == 123)) as (λ _. Option String) [
      | true ↦ resolve_from env whitelist (some "") s
      | false ↦ then_append (String.◌∷◌ c "") (resolve_from env whitelist none (String.◌∷◌ d s))
    ]
resolve_from env whitelist (some name) String.[] = some (append "${" name)
resolve_from env whitelist (some name) (String.◌∷◌ c s) =
    elim (code c == 125) as (λ _. Option String) [
      | false ↦ resolve_from env whitelist (some (append name (String.◌∷◌ c ""))) s
      | true ↦ elim (str_eq name "") as (λ _. Option String) [
        | true ↦ then_append "${}" (resolve_from env whitelist none s)
        | false ↦ substitute (replace env whitelist name) (resolve_from env whitelist none s)
      ]
    ]

-- `_resolve_string`
unfoldable pub resolve_string : Env → List String → String → Option String
unfolding resolve_from
resolve_string env whitelist s = resolve_from env whitelist none s

abbrev pub as_text : Option String → Option Value
as_text none = none
as_text (some s) = some (string s)

abbrev pub as_array : Option Values → Option Value
as_array none = none
as_array (some vs) = some (array vs)

abbrev pub as_object : Option Fields → Option Value
as_object none = none
as_object (some fs) = some (object fs)

abbrev pub as_item : Option Value → Option Values → Option Values
as_item none rest = none
as_item (some v) none = none
as_item (some v) (some vs) = some (item v vs)

abbrev pub as_field : String → Option Value → Option Fields → Option Fields
as_field key none rest = none
as_field key (some v) none = none
as_field key (some v) (some fs) = some (field key v fs)

unfoldable mutual
  unfolding resolve_string

  pub resolve : Env → List String → Value → Option Value
  resolve env whitelist (string s) = as_text (resolve_string env whitelist s)
  resolve env whitelist (array vs) = as_array (resolve_values env whitelist vs)
  resolve env whitelist (object fs) = as_object (resolve_fields env whitelist fs)
  resolve env whitelist (scalar s) = some (scalar s)

  pub resolve_values : Env → List String → Values → Option Values
  resolve_values env whitelist end = some end
  resolve_values env whitelist (item v vs) =
      as_item (resolve env whitelist v) (resolve_values env whitelist vs)

  pub resolve_fields : Env → List String → Fields → Option Fields
  resolve_fields env whitelist empty = some empty
  resolve_fields env whitelist (field key v fs) =
      as_field key (resolve env whitelist v) (resolve_fields env whitelist fs)
