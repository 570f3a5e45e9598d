-- ===== src/Obs/Redaction/Shown.antt =====
-- What a filtered record shows.
use task_scheduler_mcp.Obs.Redaction.{
  FieldValue, text, other, Fields, fold, is_secret_key, redact_value,
}
use task_scheduler_mcp.Common.{
  ◌&&◌, ◌+◌, ◌==◌, ◌≤◌, ℕ, List, String, ◌≡◌, ◌⊎◌, Bool, true, false, Option, none, some, [], ◌∷◌,
  str_eq, if◌then◌else◌,
}

-- The value of an attribute.
unfoldable pub get_field : String → Fields → Option FieldValue
get_field key [] = none
get_field key ((k, v) ∷ fields) = if str_eq k key then some v else get_field key fields

-- The words that mark a name as one of a secret.
abbrev pub words_of_secrets : List String
words_of_secrets =
    "token"
    ∷ ("secret"
        ∷ ("password"
            ∷ ("passwd"
                ∷ ("credential"
                    ∷ ("authorization"
                        ∷ ("bearer" ∷ ("apikey" ∷ ("api_key" ∷ ("api-key" ∷ [])))))))))

-- A letter reads as another: it is that one, or its capital.
abbrev Reads : ℕ → ℕ → Type 0
Reads c d = (c ≡ d) ⊎ ((65 ≤ c) × (c ≤ 90) × (c + 32 ≡ d))

abbrev pub ReadsAs : List ℕ → List ℕ → Type 0
ReadsAs [] [] = Unit
ReadsAs (c ∷ cs) (d ∷ ds) = Reads c d × ReadsAs cs ds
ReadsAs _ _ = ⊥

is_plain : List ℕ → Bool
unfolding fold
is_plain [] = true
is_plain (d ∷ ds) = (fold d == d) && is_plain ds

-- A text under a secret's name is the mark, unless every record has the name.
abbrev IsMarked : (String → Bool) → String → FieldValue → Type 0
IsMarked builtin key other = Unit
IsMarked builtin key (text s) =
    (builtin key ≡ true) ⊎ ((is_secret_key key ≡ false) ⊎ (s ≡ "[REDACTED]"))

-- The value that an attribute has after the redaction.
redacted : (String → Bool) → String → FieldValue → FieldValue
redacted builtin key v = if builtin key then v else redact_value key v
