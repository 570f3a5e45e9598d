-- ===== src/Llm/PromptGuard/OneLine.antt =====
-- What a sanitised field holds.
use Prim.Native.Char.{code}
use task_scheduler_mcp.Llm.PromptGuard.{
  line_separators, replace_with_space, replace_each, drop_controls, sanitize_prompt_field,
}
use task_scheduler_mcp.Text.{codes}
use task_scheduler_mcp.Common.{
  ℕ, String, ◌≡◌, refl, inl, inr, Bool, false, not, ◌&&◌, ◌||◌, List, [], ◌∷◌, arith, leb, ◌==◌,
  Bool-cases, exists, All, All-map,
}

-- No character of a text has a code that the test admits.
abbrev pub Lacks : (ℕ → Bool) → String → Type 0
Lacks p s = exists p (codes s) ≡ false

or-left : (a b : Bool) → (a || b) ≡ false → a ≡ false
or-left a b h = ground arith

or-right : (a b : Bool) → (a || b) ≡ false → b ≡ false
or-right a b h = ground arith

Lacks-replace_with_space :
    (p : ℕ → Bool) (sep : ℕ) (s : String)
    → p 32 ≡ false
    → Lacks p s
    → Lacks p (replace_with_space sep s)
unfolding codes replace_with_space
Lacks-replace_with_space p sep String.[] space h = refl
Lacks-replace_with_space p sep (String.◌∷◌ c s) space h =
    let rest =
      Lacks-replace_with_space p sep s space (or-right (p (code c)) (exists p (codes s)) h) in
    elim (Bool-cases (code c == sep)) [
      | inl own ↦ rw (own, space) rest
      | inr other ↦ rw (other, or-left (p (code c)) (exists p (codes s)) h) rest
    ]

-- A replaced separator is gone.
Lacks-separator :
    (sep : ℕ) (s : String) → (32 == sep) ≡ false → Lacks (λ c. c == sep) (replace_with_space sep s)
unfolding codes replace_with_space
Lacks-separator sep String.[] space = refl
Lacks-separator sep (String.◌∷◌ c s) space = elim (Bool-cases (code c == sep)) [
  | inl own ↦ rw (own, space) (Lacks-separator sep s space)
  | inr other ↦ rw (other, other) (Lacks-separator sep s space)
]

Lacks-drop_controls : (p : ℕ → Bool) (s : String) → Lacks p s → Lacks p (drop_controls s)
unfolding codes drop_controls
Lacks-drop_controls p String.[] h = refl
Lacks-drop_controls p (String.◌∷◌ c s) h =
    let rest = Lacks-drop_controls p s (or-right (p (code c)) (exists p (codes s)) h) in
    elim (Bool-cases (leb 32 (code c) && not (code c == 127))) [
      | inl shown ↦ rw (shown, or-left (p (code c)) (exists p (codes s)) h) rest
      | inr control ↦ rw control rest
    ]

-- The C0 controls and DEL.
abbrev pub is_control : ℕ → Bool
is_control c = not (leb 32 c && not (c == 127))

Lacks-controls : (s : String) → Lacks is_control (drop_controls s)
unfolding codes drop_controls
Lacks-controls String.[] = refl
Lacks-controls (String.◌∷◌ c s) = elim (Bool-cases (leb 32 (code c) && not (code c == 127))) [
  | inl shown ↦ rw (shown, shown) (Lacks-controls s)
  | inr control ↦ rw control (Lacks-controls s)
]

Lacks-each :
    (p : ℕ → Bool) (seps : List ℕ) (s : String)
    → p 32 ≡ false
    → Lacks p s
    → Lacks p (replace_each seps s)
unfolding replace_each
Lacks-each p [] s space h = h
Lacks-each p (sep ∷ seps) s space h =
    Lacks-each p seps (replace_with_space sep s) space (Lacks-replace_with_space p sep s space h)

-- Every separator of the list is gone when the loop ends.
Lacks-all :
    (seps : List ℕ) (s : String)
    → All (λ sep. (32 == sep) ≡ false) seps
    → All (λ sep. Lacks (λ c. c == sep) (replace_each seps s)) seps
unfolding replace_each
Lacks-all [] s h = tt
Lacks-all (sep ∷ seps) s h = (
  Lacks-each (λ c. c == sep) seps (replace_with_space sep s) h.0 (Lacks-separator sep s h.0),
  Lacks-all seps (replace_with_space sep s) h.1,
)

-- A sanitised field has no control character and no separator of lines.
pub sanitize_prompt_field-Lacks :
    (value : String)
    → Lacks is_control (sanitize_prompt_field value)
      × All (λ sep. Lacks (λ c. c == sep) (sanitize_prompt_field value)) line_separators
unfolding sanitize_prompt_field
sanitize_prompt_field-Lacks value =
    let spaced = replace_each line_separators value in
    (
      Lacks-controls spaced,
      All-map line_separators
          (λ sep (h : Lacks (λ c. c == sep) spaced). Lacks-drop_controls (λ c. c == sep) spaced h)
          (Lacks-all line_separators value (ground arith)),
    )
