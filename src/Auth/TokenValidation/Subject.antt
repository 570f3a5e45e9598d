-- ===== src/Auth/TokenValidation/Subject.antt =====
-- Whose token a validated one is.
use task_scheduler_mcp.Auth.TokenValidation.{
  Jwt, validate_token, auth_context, claims, invalid_token, decode_raised, Decoded, by_decoded,
  by_sub,
}
use task_scheduler_mcp.Common.{
  String, ◌≡◌, ap, ◌∙◌, ◌≢◌, inl, inr, Option, none, some, str_eq, eq_iff, Bool-cases,
}

by_sub-named :
    (sub : Option String) (user_id : String)
    → by_sub sub ≡ auth_context user_id
    → (sub ≡ some user_id) × (user_id ≢ "")
by_sub-named none user_id h = absurd (cc h)
by_sub-named (some sub) user_id h = elim (Bool-cases (str_eq sub "")) [
  | inl empty ↦ absurd (cc (rw empty at h))
  | inr full ↦
      let same : auth_context sub ≡ auth_context user_id = rw full at h in
      let sub_same : sub ≡ user_id = cc same in
      (ap some sub_same, λ empty. cc (full, (eq_iff sub "").1 (sub_same ∙ empty)))
]

by_decoded-named :
    (d : Decoded) (user_id : String)
    → by_decoded d ≡ auth_context user_id
    → (d ≡ claims (some user_id)) × (user_id ≢ "")
by_decoded-named (claims sub) user_id h = let s = by_sub-named sub user_id h in (ap claims s.0, s.1)
by_decoded-named invalid_token user_id h = absurd (cc h)
by_decoded-named (decode_raised error) user_id h = absurd (cc h)

-- A validated token has its user as its subject, and the user has a name.
pub validate_token-named :
    (jwt : Jwt) (token : String) (issuer : Option String) (audience : String)
    (jwks_uri : Option String) (user_id : String)
    → validate_token jwt token issuer audience jwks_uri ≡ auth_context user_id
    → (jwt.decode token issuer audience jwks_uri ≡ claims (some user_id)) × (user_id ≢ "")
unfolding validate_token
validate_token-named jwt token issuer audience jwks_uri user_id =
    by_decoded-named (jwt.decode token issuer audience jwks_uri) user_id
