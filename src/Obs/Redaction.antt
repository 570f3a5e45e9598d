-- ===== src/Obs/Redaction.antt =====
-- `_redact_value`, `_redact_record` and `_CorrelationFilter` of app/obs/logging.py. A record is the
-- list of its attributes by name; the names that every record has are the parameter `builtin`.
pub mod Shown
use task_scheduler_mcp.Text.{occurs_in, codes, codes_start_with}
use task_scheduler_mcp.Common.{
  max, min, ℕ, zero, suc, ◌+◌, ◌-◌, ◌*◌, ◌/◌, ◌%◌, ◌≤◌, ◌<◌, String, ◌≡◌, refl, sym, ap, ◌∙◌, ◌≢◌,
  ◌↔◌, ◌⊎◌, inl, inr, Bool, true, false, not, ◌&&◌, ◌||◌, Option, none, some, List, [], ◌∷◌, ◌++◌,
  map, arith, str_eq, eq_iff, eq_refl, ltb, leb, ◌==◌, if◌then◌else◌, ==_iff, ==-self, Bool-cases,
  Option-cases, &&-left, &&-right, length, take, drop, head?, select, update, exists, count, All,
  order_by, All-map, All-intro, All-both, head?-select, length-select, All-select, All-take,
  length-take, exists-count, count-exists, count-zero-All, All-count-zero, count-and-le,
  All-only_one, All-update, count-update-add, count-update-le,
}

-- A value that is a text, or another one.
pub data FieldValue : Type 0 where
  text : String → FieldValue
  other : FieldValue

abbrev pub Fields : Type 0
Fields = List (String × FieldValue)

-- The case folding of `re.IGNORECASE`, as far as it reaches ASCII letters.
unfoldable pub fold : ℕ → ℕ
fold c =
    if leb 65 c && leb c 90
    then c + 32
    else if c == 304 || c == 305
    then 105
    else if c == 383
    then 115
    else if c == 8490
    then 107
    else c

-- The words of `_SECRET_KEY_RE`; `api[_-]?key` is three of them.
abbrev secret_words : List String
secret_words =
    "token"
    ∷ ("secret"
        ∷ ("password"
            ∷ ("passwd"
                ∷ ("credential"
                    ∷ ("authorization"
                        ∷ ("bearer" ∷ ("apikey" ∷ ("api_key" ∷ ("api-key" ∷ [])))))))))

-- `_SECRET_KEY_RE.search(key)`
unfoldable pub is_secret_key : String → Bool
unfolding occurs_in codes codes_start_with fold
is_secret_key key = exists (λ word. occurs_in (codes word) (map fold (codes key))) secret_words

unfoldable pub redact_value : String → FieldValue → FieldValue
unfolding is_secret_key
redact_value key other = other
redact_value key (text s) = if is_secret_key key then text "[REDACTED]" else text s

module _ (builtin : String → Bool) where
  abbrev pub redact_field : String × FieldValue → String × FieldValue
  unfolding redact_value
  redact_field (key, v) = if builtin key then (key, v) else (key, redact_value key v)

  unfoldable pub redact_record : Fields → Fields
  unfolding redact_field
  redact_record fields = map redact_field fields

-- `record.<name> = value`
unfoldable pub set_field : String → FieldValue → Fields → Fields
set_field key v [] = (key, v) ∷ []
set_field key v ((k, w) ∷ fields) =
    let rest = set_field key v fields in if str_eq k key then (k, v) ∷ fields else (k, w) ∷ rest

-- A correlation id is set where the context has one.
abbrev pub set_if : String → Option String → Fields → Fields
unfolding set_field
set_if key none fields = fields
set_if key (some id) fields = set_field key (text id) fields

pub record Context : Type 0 where
  pub service : String
  pub git_sha : String
  pub user_id : Option String
  pub job_id : Option String
  pub run_id : Option String

-- `_CorrelationFilter.filter`
unfoldable pub filter : (String → Bool) → Context → Fields → Fields
unfolding redact_record set_field set_if
filter builtin context fields = redact_record builtin (
    set_if "run_id" context.run_id (
      set_if "job_id" context.job_id (
        set_if "user_id" context.user_id (
          set_field "git_sha" (text context.git_sha)
            (set_field "service" (text context.service) fields)))))
