-- ===== src/Web/Session.antt =====
-- The session cookie of app/web/connections.py, and what its routes read and answer. The texts of the
-- pages and the flags of the cookies are left out. PyJWT with HS256 is the parameter `SessionJwt`;
-- `now` is in microseconds.
pub mod Lifetime
use task_scheduler_mcp.Store.{hour, second}
use task_scheduler_mcp.Common.{
  ◌≢◌, ℕ, ◌+◌, ◌*◌, ◌/◌, ◌≤◌, ◌<◌, String, ◌≡◌, Bool, true, false, not, ◌&&◌, Option, none, some,
  List, str_eq, if◌then◌else◌,
}

pub record SessionJwt : Type 0 where
  -- `jwt.encode` of the claims `sub`, `iat` and `exp`, with a secret
  pub encode : (secret sub : String) (iat exp : ℕ) → String
  -- `jwt.decode(...).get("sub")` at an instant; `none` for InvalidTokenError
  pub decode : (secret : String) (now : ℕ) (token : String) → Option (Option String)

-- What PyJWT promises: a token that was encoded with the secret is valid until it expires.
pub record IsSigning (jwt : SessionJwt) : Type 0 where
  pub opens :
      (secret sub : String) (iat exp now : ℕ)
      → now / second < exp
      → iat ≤ now / second
      → jwt.decode secret now (jwt.encode secret sub iat exp) ≡ some (some sub)
  pub not_empty : (secret sub : String) (iat exp : ℕ) → jwt.encode secret sub iat exp ≢ ""
  pub expires :
      (secret sub : String) (iat exp now : ℕ)
      → exp ≤ now / second
      → jwt.decode secret now (jwt.encode secret sub iat exp) ≡ none

pub record WebSettings : Type 0 where
  pub web_session_secret : String
  pub workos_client_id : Option String
  pub workos_client_secret : Option String
  pub workos_issuer : Option String
  pub workos_jwks_uri : Option String
  pub workos_audience : Option String
  pub workos_api_base_url : String
  pub connections_base_url : String
  pub github_client_id : Option String
  pub github_client_secret : Option String
  pub slack_client_id : Option String
  pub google_client_id : Option String
  pub mcp_user_id : Option String

pub record Cookies : Type 0 where
  pub session : Option String
  pub oauth_state : Option String

pub record WebRequest : Type 0 where
  pub cookies : Cookies
  pub code : Option String
  pub state : Option String

pub data Cookie : Type 0 where
  untouched deleted : Cookie
  set_to : (value : String) → (max_age : ℕ) → Cookie

-- A page of this site, or one of a provider with its query.
pub data Location : Type 0 where
  own : (path : String) → Location
  authorize : (endpoint : String) → (params : List (String × String)) → Location

pub record WebResponse : Type 0 where
  pub status_code : ℕ
  pub location : Option Location
  pub session : Cookie
  pub oauth_state : Cookie

-- `_SESSION_TTL`
abbrev pub session_ttl : ℕ
session_ttl = 24 * hour

unfoldable pub create_session_token : SessionJwt → WebSettings → ℕ → String → String
create_session_token jwt settings now user_id =
    jwt.encode settings.web_session_secret user_id (now / second) ((now + session_ttl) / second)

abbrev joined : Option (Option String) → Option String
joined none = none
joined (some sub) = sub

unfoldable pub decode_session_token : SessionJwt → WebSettings → ℕ → String → Option String
decode_session_token jwt settings now token =
    joined (jwt.decode settings.web_session_secret now token)

abbrev pub by_cookie : SessionJwt → WebSettings → ℕ → Option String → Option String
unfolding decode_session_token
by_cookie jwt settings now none = none
by_cookie jwt settings now (some token) =
    if str_eq token "" then none else decode_session_token jwt settings now token

unfoldable pub get_session_user : SessionJwt → WebSettings → ℕ → WebRequest → Option String
unfolding decode_session_token
get_session_user jwt settings now request = by_cookie jwt settings now request.cookies.session

-- `setting or ""`
abbrev pub value : Option String → String
value none = ""
value (some s) = s

-- `if not user_id`: an empty name is no user.
abbrev pub named : Option String → Option String
named none = none
named (some user_id) = if str_eq user_id "" then none else some user_id

abbrev pub page : ℕ → WebResponse
page status_code = record {
  status_code = status_code;
  location = none;
  session = untouched;
  oauth_state = untouched;
}

abbrev pub redirect : String → WebResponse
redirect path = record {
  status_code = 302;
  location = some (own path);
  session = untouched;
  oauth_state = untouched;
}

unfoldable pub set_session : SessionJwt → WebSettings → ℕ → String → WebResponse → WebResponse
unfolding create_session_token
set_session jwt settings now user_id response = record response {
  session = set_to (create_session_token jwt settings now user_id) (session_ttl / second);
}

-- A redirect to a provider, with the state in a cookie of ten minutes.
abbrev pub start_flow : String → List (String × String) → String → WebResponse
start_flow endpoint params state = record {
  status_code = 302;
  location = some (authorize endpoint params);
  session = untouched;
  oauth_state = set_to state 600;
}

-- `state != stored_state`
abbrev differs : Option String → String → Bool
differs none stored = true
differs (some state) stored = not (str_eq state stored)

-- `stored_state and state != stored_state`
unfoldable pub is_wrong_state : WebRequest → Bool
is_wrong_state request = elim request.cookies.oauth_state [
  | none ↦ false
  | some stored ↦ not (str_eq stored "") && differs request.state stored
]
