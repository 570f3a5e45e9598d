-- ===== src/Auth/TokenValidation.antt =====
-- app/auth/token_validation.py, and app/db/identity.py. The keys that are fetched and the checks of
-- the signature and of the claims `exp`, `aud` and `iss` are the parameter `Jwt`.
pub mod Subject
use task_scheduler_mcp.Store.Session.{Error}
use task_scheduler_mcp.Common.{String, Option, none, some, str_eq, if◌then◌else◌}

-- An issuer or an address that is not configured is None. What `get_signing_key_from_jwt` and `jwt.decode` answer for a token.
pub data Decoded : Type 0 where
  claims : (sub : Option String) → Decoded
  -- jwt.InvalidTokenError
  invalid_token : Decoded
  -- any other exception, such as PyJWKClientError for a key that is not found
  decode_raised : Error → Decoded

pub record Jwt : Type 0 where
  pub decode :
      (token : String) (issuer : Option String) (audience : String) (jwks_uri : Option String)
      → Decoded

pub data Validated : Type 0 where
  auth_context : (user_id : String) → Validated
  -- TokenValidationError
  token_validation_error : Validated
  raised : Error → Validated

abbrev pub by_sub : Option String → Validated
by_sub none = token_validation_error
by_sub (some sub) = if str_eq sub "" then token_validation_error else auth_context sub

abbrev pub by_decoded : Decoded → Validated
by_decoded (claims sub) = by_sub sub
by_decoded invalid_token = token_validation_error
by_decoded (decode_raised e) = raised e

unfoldable pub validate_token :
    Jwt
    → (token : String) (issuer : Option String) (audience : String) (jwks_uri : Option String)
    → Validated
validate_token jwt token issuer audience jwks_uri =
    by_decoded (jwt.decode token issuer audience jwks_uri)

-- `os.environ.get("MCP_USER_ID", "default-user")`
abbrev pub resolve_user_id_stdio : Option String → String
resolve_user_id_stdio none = "default-user"
resolve_user_id_stdio (some user_id) = user_id
