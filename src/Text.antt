-- ===== src/Text.antt =====
-- Python's `str.strip`, `str.lower`, `str.split` and `str.startswith`, as the program uses them. A text
-- is walked by its code points.
use Prim.Native.Char.{code}
use task_scheduler_mcp.Common.{
  ℕ, ◌+◌, String, Bool, true, false, not, ◌&&◌, ◌||◌, List, [], ◌∷◌, map, str_eq, leb, ◌==◌,
  if◌then◌else◌,
}

-- The code points that `str.isspace` admits.
abbrev is_space : ℕ → Bool
is_space c =
    (leb 9 c && leb c 13)
    || ((leb 28 c && leb c 32)
        || ((c == 133)
            || ((c == 160)
                || ((c == 5760)
                    || ((leb 8192 c && leb c 8202)
                        || ((c == 8232)
                            || ((c == 8233) || ((c == 8239) || ((c == 8287) || (c == 12288))))))))))

strip_left : String → String
strip_left String.[] = String.[]
strip_left (String.◌∷◌ c s) =
    let rest = strip_left s in if is_space (code c) then rest else String.◌∷◌ c s

-- The white space at the end goes with a text that is only white space.
strip_right : String → String
strip_right String.[] = String.[]
strip_right (String.◌∷◌ c s) =
    let rest = strip_right s in
    if str_eq rest "" && is_space (code c) then "" else String.◌∷◌ c rest

unfoldable pub strip : String → String
unfolding strip_left strip_right
strip s = strip_right (strip_left s)

unfoldable pub codes : String → List ℕ
codes String.[] = []
codes (String.◌∷◌ c s) = code c ∷ codes s

-- Lower case as far as ASCII texts can tell: A to Z, and the Kelvin sign, whose lower case is `k`.
abbrev to_lower : ℕ → ℕ
to_lower c = if leb 65 c && leb c 90 then c + 32 else if c == 8490 then 107 else c

unfoldable pub lower : String → List ℕ
unfolding codes
lower s = map to_lower (codes s)

unfoldable pub codes_eq : List ℕ → List ℕ → Bool
codes_eq [] [] = true
codes_eq [] (d ∷ ds) = false
codes_eq (c ∷ cs) [] = false
codes_eq (c ∷ cs) (d ∷ ds) = (c == d) && codes_eq cs ds

unfoldable pub codes_start_with : List ℕ → List ℕ → Bool
codes_start_with cs [] = true
codes_start_with [] (d ∷ ds) = false
codes_start_with (c ∷ cs) (d ∷ ds) = (c == d) && codes_start_with cs ds

-- Whether one text stands somewhere in another.
unfoldable pub occurs_in : List ℕ → List ℕ → Bool
unfolding codes_start_with
occurs_in word [] = codes_start_with [] word
occurs_in word (c ∷ cs) = let rest = occurs_in word cs in codes_start_with (c ∷ cs) word || rest

-- `len(text.split())`; `inside` says that the last character belongs to a field.
unfoldable pub count_fields : Bool → List ℕ → ℕ
count_fields inside [] = 0
count_fields inside (c ∷ cs) =
    let rest = count_fields (not (is_space c)) cs in
    if not inside && not (is_space c) then rest + 1 else rest
