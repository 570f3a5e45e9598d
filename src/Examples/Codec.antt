-- ===== src/Examples/Codec.antt =====
-- A concrete cipher for the examples: the token data as one text, which is read again.
use task_scheduler_mcp.Connections.KmsEnvelope.{TokenData}
use Prim.Native.Char.{code}
use task_scheduler_mcp.Common.{String, ◌≡◌, refl, Option, none, some, ◌==◌, if◌then◌else◌}

-- A text and what follows it: each character after a plus, a full stop at the end.
unfoldable pub put : String → String → String
put String.[] rest = String.◌∷◌ "." rest
put (String.◌∷◌ c s) rest = String.◌∷◌ "+" (String.◌∷◌ c (put s rest))

unfoldable take_text : String → Option (String × String)
take_text String.[] = none
take_text (String.◌∷◌ c String.[]) = if code c == 46 then some ("", "") else none
take_text (String.◌∷◌ c (String.◌∷◌ d rest)) =
    let later = take_text rest in
    if code c == 46
    then some ("", String.◌∷◌ d rest)
    else elim later [ none ↦ none | some (s, left) ↦ some (String.◌∷◌ d s, left) ]

take_text-put : (s rest : String) → take_text (put s rest) ≡ some (s, rest)
unfolding put take_text
take_text-put String.[] String.[] = refl
take_text-put String.[] (String.◌∷◌ d rest) = refl
take_text-put (String.◌∷◌ c s) rest = rw (take_text-put s rest)

unfoldable put_option : Option String → String → String
unfolding put
put_option none rest = String.◌∷◌ "n" rest
put_option (some s) rest = String.◌∷◌ "s" (put s rest)

unfoldable take_option : String → Option (Option String × String)
unfolding take_text
take_option String.[] = none
take_option (String.◌∷◌ c rest) =
    if code c == 110
    then some (none, rest)
    else elim (take_text rest) [ none ↦ none | some (s, left) ↦ some (some s, left) ]

take_option-put_option :
    (o : Option String) (rest : String) → take_option (put_option o rest) ≡ some (o, rest)
unfolding put_option take_option
take_option-put_option none rest = refl
take_option-put_option (some s) rest = rw (take_text-put s rest)

unfoldable pub encode : TokenData → String
unfolding put_option
encode t = put_option t.access_token (put_option t.refresh_token (put_option t.expires_at ""))

unfoldable pub decode : String → Option TokenData
unfolding take_option
decode s = elim (take_option s) [
  | none ↦ none
  | some (access, s1) ↦ elim (take_option s1) [
    | none ↦ none
    | some (fresh, s2) ↦ elim (take_option s2) [
      | none ↦ none
      | some (expiry, s3) ↦
          some (record { access_token = access; refresh_token = fresh; expires_at = expiry })
    ]
  ]
]

pub decode-encode : (t : TokenData) → decode (encode t) ≡ some t
unfolding encode decode
decode-encode t = rw (
  decode,
  encode,
  take_option-put_option t.access_token (put_option t.refresh_token (put_option t.expires_at "")),
  take_option-put_option t.refresh_token (put_option t.expires_at ""),
  take_option-put_option t.expires_at "",
)
