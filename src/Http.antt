-- ===== src/Http.antt =====
-- `_McpHttpEndpoint` of app/entrypoints/mcp_http.py: the checks in front of the MCP server, in their
-- order. The answers are modelled by their status and headers, less their texts; the MCP server behind
-- them is `handle_mcp`, which is entered with the user that was resolved.
pub mod Admission
use task_scheduler_mcp.Text.{strip, codes_start_with, codes, lower}
use task_scheduler_mcp.Auth.Posture.{BearerVerifyPosture, trust_only, bearer_verified}
use task_scheduler_mcp.Auth.TokenValidation.{
  Jwt, validate_token, resolve_user_id_stdio, Validated, auth_context, token_validation_error,
}
use task_scheduler_mcp.Limits.RateLimit.{
  check_rate_limit, RateLimits, RateLimitDecision, allow, reject,
}
use task_scheduler_mcp.Overload.Health.{Load, should_shed}
use task_scheduler_mcp.Overload.Limiter.{ConcurrencyLimiter, enter}
use task_scheduler_mcp.Store.{Job}
use task_scheduler_mcp.Store.Session.{Error, Result, ok, err}
use task_scheduler_mcp.Common.{
  ℕ, zero, suc, String, Bool, true, false, Option, none, some, List, str_eq, if◌then◌else◌,
}

pub record Request : Type 0 where
  pub authorization : Option String
  pub x_user_id : Option String

pub record Response : Type 0 where
  pub status_code : ℕ
  pub retry_after : Option ℕ
  pub www_authenticate : Bool

-- `text[n:]`
unfoldable drop_text : ℕ → String → String
drop_text zero s = s
drop_text (suc n) String.[] = ""
drop_text (suc n) (String.◌∷◌ c s) = drop_text n s

-- `text or None`
abbrev pub or_none : String → Option String
or_none s = if str_eq s "" then none else some s

-- The header, or the empty text.
abbrev pub header : Option String → String
header none = ""
header (some value) = value

unfoldable pub extract_bearer : Request → Option String
unfolding drop_text lower codes codes_start_with strip
extract_bearer request =
    let auth = header request.authorization in
    if codes_start_with (lower auth) (codes "bearer ")
    then or_none (strip (drop_text 7 auth))
    else none

pub data Identity : Type 0 where
  user : (user_id : String) → Identity
  unauthorized : Identity
  failed : Error → Identity

abbrev pub by_validated : Validated → Identity
by_validated (auth_context user_id) = user user_id
by_validated token_validation_error = unauthorized
by_validated (Validated.raised e) = failed e

-- The caller's name in trust-only mode: the header, unless it is missing or empty.
abbrev pub trusted : Option String → Option String → String
trusted mcp_user_id none = resolve_user_id_stdio mcp_user_id
trusted mcp_user_id (some name) = if str_eq name "" then resolve_user_id_stdio mcp_user_id else name

abbrev by_bearer : Jwt → (jwks_uri issuer audience : String) → Option String → Identity
unfolding validate_token
by_bearer jwt jwks_uri issuer audience none = unauthorized
by_bearer jwt jwks_uri issuer audience (some token) =
    by_validated (validate_token jwt token (some issuer) audience (some jwks_uri))

unfoldable pub resolve_user_id : BearerVerifyPosture → Jwt → Option String → Request → Identity
unfolding extract_bearer validate_token
resolve_user_id trust_only jwt mcp_user_id request = user (trusted mcp_user_id request.x_user_id)
resolve_user_id (bearer_verified jwks_uri issuer audience) jwt mcp_user_id request =
    by_bearer jwt jwks_uri issuer audience (extract_bearer request)

pub record Endpoint : Type 0 where
  pub posture : BearerVerifyPosture
  pub jwt : Jwt
  pub mcp_user_id : Option String
  pub thresholds : Load
  pub rate_limits : RateLimits
  pub overload_retry_after_seconds : ℕ

-- What the world shows to one request: the load and the rows of jobs, at an instant.
pub record Moment : Type 0 where
  pub load : Load
  pub jobs : List Job
  pub now : ℕ

pub data Answer : Type 0 where
  refused : Response → Answer
  -- let in: `_handle_mcp` runs for the user
  handle_mcp : (user_id : String) → Answer
  raised : Error → Answer

abbrev overloaded : Endpoint → Answer
overloaded e = refused (record {
  status_code = 503;
  retry_after = some e.overload_retry_after_seconds;
  www_authenticate = false;
})

abbrev not_authenticated : Answer
not_authenticated =
    refused (record { status_code = 401; retry_after = none; www_authenticate = true })

abbrev too_many : ℕ → Answer
too_many seconds =
    refused (record { status_code = 429; retry_after = some seconds; www_authenticate = false })

-- `self._limiter.acquire()`: a request that is let in holds its place until it leaves.
abbrev pub acquire :
    Endpoint → String → ConcurrencyLimiter → Option ConcurrencyLimiter → Answer × ConcurrencyLimiter
acquire e user_id limiter none = (overloaded e, limiter)
acquire e user_id limiter (some entered) = (handle_mcp user_id, entered)

abbrev pub by_rate :
    Endpoint → String → ConcurrencyLimiter → Result RateLimitDecision → Answer × ConcurrencyLimiter
unfolding enter
by_rate e user_id limiter (err error) = (raised error, limiter)
by_rate e user_id limiter (ok (reject reason seconds)) = (too_many seconds, limiter)
by_rate e user_id limiter (ok allow) = acquire e user_id limiter (enter limiter)

abbrev pub by_identity :
    Endpoint → Moment → ConcurrencyLimiter → Identity → Answer × ConcurrencyLimiter
unfolding check_rate_limit by_rate
by_identity e m limiter unauthorized = (not_authenticated, limiter)
by_identity e m limiter (failed error) = (raised error, limiter)
by_identity e m limiter (user user_id) =
    by_rate e user_id limiter (check_rate_limit user_id m.jobs e.rate_limits m.now)

-- `__call__`, up to the entry into the MCP server.
unfoldable pub call : Endpoint → Moment → Request → ConcurrencyLimiter → Answer × ConcurrencyLimiter
unfolding should_shed resolve_user_id by_identity
call e m request limiter =
    if should_shed e.thresholds m.load
    then (overloaded e, limiter)
    else by_identity e m limiter (resolve_user_id e.posture e.jwt e.mcp_user_id request)
