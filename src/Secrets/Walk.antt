-- ===== src/Secrets/Walk.antt =====
-- A secret is found wherever it stands in a document.
use task_scheduler_mcp.Secrets.Json.{
  Value, Values, Fields, string, array, object, scalar, end, item, empty, field,
}
use task_scheduler_mcp.Secrets.LiteralDetection.{
  detect_literal_secret, detect_values, detect_fields,
}
use task_scheduler_mcp.Secrets.LiteralDetection.{check_string, detect_literal_secret, or_else}
use task_scheduler_mcp.Common.{
  ℕ, String, ◌≡◌, refl, sym, ap, ◌∙◌, inl, inr, Bool, Option, none, List, [], ◌∷◌, ◌++◌,
  Option-cases,
}

-- The texts of a document in their order, at any depth.
unfoldable mutual
  pub texts_of : Value → List String
  texts_of (string s) = s ∷ []
  texts_of (array vs) = texts_of_values vs
  texts_of (object fs) = texts_of_fields fs
  texts_of (scalar s) = []

  pub texts_of_values : Values → List String
  texts_of_values end = []
  texts_of_values (item v vs) = texts_of v ++ texts_of_values vs

  pub texts_of_fields : Fields → List String
  texts_of_fields empty = []
  texts_of_fields (field key v fs) = texts_of v ++ texts_of_fields fs

-- The first text with a secret.
unfoldable pub first_secret : (ℕ → Bool) → List String → Option String
first_secret alnum [] = none
first_secret alnum (s ∷ rest) = or_else (check_string alnum s) (first_secret alnum rest)

first_secret-append :
    (alnum : ℕ → Bool) (xs ys : List String)
    → first_secret alnum (xs ++ ys) ≡ or_else (first_secret alnum xs) (first_secret alnum ys)
unfolding first_secret
first_secret-append alnum [] ys = refl
first_secret-append alnum (s ∷ xs) ys = elim (Option-cases (check_string alnum s)) [
  | inl clean ↦ rw clean (first_secret-append alnum xs ys)
  | inr (prefix, found) ↦ rw found
]

mutual
  unfolding texts_of detect_literal_secret first_secret

  walk-value :
      (alnum : ℕ → Bool) (v : Value)
      → detect_literal_secret alnum v ≡ first_secret alnum (texts_of v)
  walk-value alnum (string s) = elim (Option-cases (check_string alnum s)) [
    | inl clean ↦ rw clean
    | inr (prefix, found) ↦ rw found
  ]
  walk-value alnum (array vs) = walk-values alnum vs
  walk-value alnum (object fs) = walk-fields alnum fs
  walk-value alnum (scalar s) = refl

  walk-values :
      (alnum : ℕ → Bool) (vs : Values)
      → detect_values alnum vs ≡ first_secret alnum (texts_of_values vs)
  walk-values alnum end = refl
  walk-values alnum (item v vs) =
      ap (or_else (detect_literal_secret alnum v)) (walk-values alnum vs)
      ∙ ap (λ o. or_else o (first_secret alnum (texts_of_values vs))) (walk-value alnum v)
      ∙ sym (first_secret-append alnum (texts_of v) (texts_of_values vs))

  walk-fields :
      (alnum : ℕ → Bool) (fs : Fields)
      → detect_fields alnum fs ≡ first_secret alnum (texts_of_fields fs)
  walk-fields alnum empty = refl
  walk-fields alnum (field key v fs) =
      ap (or_else (detect_literal_secret alnum v)) (walk-fields alnum fs)
      ∙ ap (λ o. or_else o (first_secret alnum (texts_of_fields fs))) (walk-value alnum v)
      ∙ sym (first_secret-append alnum (texts_of v) (texts_of_fields fs))

-- The walk of a document finds what the first of its texts with a secret gives.
pub detect_literal_secret-texts_of :
    (alnum : ℕ → Bool) (v : Value) → detect_literal_secret alnum v ≡ first_secret alnum (texts_of v)
detect_literal_secret-texts_of alnum v = walk-value alnum v
