-- ===== src/Secrets/LiteralDetection.antt =====
-- app/secrets/literal_detection.py, over the code points of a text. `alnum` is `str.isalnum` outside
-- ASCII.
use task_scheduler_mcp.Secrets.Json.{
  Value, Values, Fields, string, array, object, scalar, end, item, empty, field,
}
use task_scheduler_mcp.Text.{codes_start_with, codes}
use task_scheduler_mcp.Common.{
  ℕ, ◌+◌, String, Bool, true, false, not, ◌&&◌, ◌||◌, Option, none, some, List, [], ◌∷◌, leb, ◌==◌,
  if◌then◌else◌, length, drop,
}

abbrev is_alnum : ℕ → Bool
is_alnum c = (leb 48 c && leb c 57) || ((leb 65 c && leb c 90) || (leb 97 c && leb c 122))

-- `\w`
abbrev is_word : (ℕ → Bool) → ℕ → Bool
is_word alnum c = (c == 95) || (is_alnum c || (leb 128 c && alnum c))

-- `(?<![/\w])PREFIX[A-Za-z0-9…]{least,}`: whether the class has `_` and `-`.
record Pattern : Type 0 where
  pub prefix : String
  pub underscore : Bool
  pub dash : Bool
  pub least : ℕ

-- `_SECRET_PATTERNS`
unfoldable secret_patterns : List Pattern
secret_patterns =
    record { prefix = "sk-ant-"; underscore = true; dash = true; least = 8 }
    ∷ record { prefix = "sk-"; underscore = true; dash = true; least = 8 }
    ∷ record { prefix = "xoxb-"; underscore = false; dash = true; least = 8 }
    ∷ record { prefix = "ghp_"; underscore = false; dash = false; least = 8 }
    ∷ record { prefix = "glpat-"; underscore = true; dash = true; least = 8 }
    ∷ record { prefix = "AIza"; underscore = true; dash = true; least = 15 }
    ∷ []

abbrev in_class : Pattern → ℕ → Bool
in_class p c = is_alnum c || ((p.underscore && (c == 95)) || (p.dash && (c == 45)))

-- How many characters of the class stand at the front.
unfoldable run_length : Pattern → List ℕ → ℕ
run_length p [] = 0
run_length p (c ∷ cs) = let rest = run_length p cs in if in_class p c then rest + 1 else 0

abbrev matches_here : Pattern → List ℕ → Bool
unfolding codes codes_start_with run_length
matches_here p cs =
    codes_start_with cs (codes p.prefix)
    && leb p.least (run_length p (drop (length (codes p.prefix)) cs))

-- `pattern.search(s)`; `free` says that no character of `[/\w]` stands before.
unfoldable search_from : (ℕ → Bool) → Pattern → Bool → List ℕ → Bool
unfolding matches_here
search_from alnum p free [] = false
search_from alnum p free (c ∷ cs) =
    (free && matches_here p (c ∷ cs)) || search_from alnum p (not ((c == 47) || is_word alnum c)) cs

unfoldable first_pattern : (ℕ → Bool) → List Pattern → String → Option String
unfolding search_from
first_pattern alnum [] s = none
first_pattern alnum (p ∷ ps) s =
    let rest = first_pattern alnum ps s in
    if search_from alnum p true (codes s) then some p.prefix else rest

-- `_check_string`
unfoldable pub check_string : (ℕ → Bool) → String → Option String
unfolding first_pattern secret_patterns
check_string alnum s = first_pattern alnum secret_patterns s

-- `if result is not None: return result`, and the rest otherwise.
abbrev pub or_else : Option String → Option String → Option String
or_else none rest = rest
or_else (some prefix) rest = some prefix

unfoldable mutual
  unfolding check_string

  pub detect_literal_secret : (ℕ → Bool) → Value → Option String
  detect_literal_secret alnum (string s) = check_string alnum s
  detect_literal_secret alnum (array vs) = detect_values alnum vs
  detect_literal_secret alnum (object fs) = detect_fields alnum fs
  detect_literal_secret alnum (scalar s) = none

  pub detect_values : (ℕ → Bool) → Values → Option String
  detect_values alnum end = none
  detect_values alnum (item v vs) = or_else (detect_literal_secret alnum v) (detect_values alnum vs)

  pub detect_fields : (ℕ → Bool) → Fields → Option String
  detect_fields alnum empty = none
  detect_fields alnum (field key v fs) =
      or_else (detect_literal_secret alnum v) (detect_fields alnum fs)
