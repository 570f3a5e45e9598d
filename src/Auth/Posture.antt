-- ===== src/Auth/Posture.antt =====
-- app/auth/posture.py.
pub mod Complete
use task_scheduler_mcp.Store.Session.{Result, ok, err, value_error}
use task_scheduler_mcp.Text.{strip}
use task_scheduler_mcp.Common.{
  String, Bool, false, not, Option, none, some, List, [], ◌∷◌, str_eq, ◌==◌, if◌then◌else◌, length,
  select,
}

pub record WorkosFields : Type 0 where
  pub jwks_uri : Option String
  pub issuer : Option String
  pub audience : Option String

pub data BearerVerifyPosture : Type 0 where
  trust_only : BearerVerifyPosture
  bearer_verified : (jwks_uri issuer audience : String) → BearerVerifyPosture

-- `bool(val and val.strip())`
unfoldable pub is_present : Option String → Bool
unfolding strip
is_present none = false
is_present (some value) = not (str_eq (strip value) "")

-- The fields, by name.
abbrev pub fields : WorkosFields → List (String × Option String)
fields s =
    ("WORKOS_JWKS_URI", s.jwks_uri)
    ∷ (("WORKOS_ISSUER", s.issuer) ∷ (("WORKOS_AUDIENCE", s.audience) ∷ []))

abbrev pub missing : WorkosFields → List (String × Option String)
unfolding is_present
missing s = select (λ f. not (is_present f.1)) (fields s)

-- Each field is there when the posture verifies.
abbrev pub verified : Option String → Option String → Option String → Result BearerVerifyPosture
verified (some jwks_uri) (some issuer) (some audience) =
    ok (bearer_verified jwks_uri issuer audience)
verified _ _ _ = err value_error

unfoldable pub bearer_posture_from_settings : WorkosFields → Result BearerVerifyPosture
unfolding is_present
bearer_posture_from_settings s =
    if length (missing s) == length (fields s)
    then ok trust_only
    else if length (missing s) == 0
    then verified s.jwks_uri s.issuer s.audience
    else err value_error
