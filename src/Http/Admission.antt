-- ===== src/Http/Admission.antt =====
-- Who is let in to the MCP server.
use task_scheduler_mcp.Auth.Posture.{bearer_verified}
use task_scheduler_mcp.Auth.TokenValidation.{
  token_validation_error, auth_context, Validated, Jwt, validate_token, claims,
}
use task_scheduler_mcp.Auth.TokenValidation.Subject.{validate_token-named}
use task_scheduler_mcp.Limits.RateLimit.{
  RateReason, RateLimitDecision, allow, reject, check_rate_limit,
}
use task_scheduler_mcp.Overload.Health.{should_shed}
use task_scheduler_mcp.Overload.Limiter.{ConcurrencyLimiter, enter}
use task_scheduler_mcp.Store.Session.{Result, ok, err}
use task_scheduler_mcp.Http.{
  Response, Request, Identity, user, unauthorized, failed, Endpoint, Moment, Answer, handle_mcp,
  refused, call, resolve_user_id, by_validated, extract_bearer, by_rate, by_identity, acquire,
}
use task_scheduler_mcp.Common.{
  ◌≤◌, ℕ, ◌⊎◌, true, ◌+◌, ◌<◌, String, ◌≡◌, refl, ap, ◌≢◌, inl, inr, false, Option, some, arith,
  leb, Bool-cases, Option-cases,
}

-- A place in the limiter is taken exactly for the request that is let in.
pub record IsAdmitted (e : Endpoint) (m : Moment) (request : Request) (l : ConcurrencyLimiter)
    (user_id : String) (after : ConcurrencyLimiter) : Type 0 where
  pub healthy : should_shed e.thresholds m.load ≡ false
  pub known : resolve_user_id e.posture e.jwt e.mcp_user_id request ≡ user user_id
  pub allowed : check_rate_limit user_id m.jobs e.rate_limits m.now ≡ ok allow
  pub room : l.inflight < l.limit
  pub place : after ≡ record l { inflight = l.inflight + 1 }

-- The caps on what a user creates stop the request.
pub record IsLimited (e : Endpoint) (m : Moment) (request : Request) (r : Response) : Type 0 where
  pub user_id : String
  pub known : resolve_user_id e.posture e.jwt e.mcp_user_id request ≡ user user_id
  pub reason : RateReason
  pub seconds : ℕ
  pub rejected : check_rate_limit user_id m.jobs e.rate_limits m.now ≡ ok (reject reason seconds)
  pub status : r.status_code ≡ 429
  pub retry_after : r.retry_after ≡ some seconds

-- 503 for a loaded service or a full limiter, 401 for unknown credentials, 429 for a rate.
abbrev pub IsRefused : Endpoint → Moment → Request → ConcurrencyLimiter → Response → Type 0
IsRefused e m request l r =
    ((r.status_code ≡ 503)
      × (r.retry_after ≡ some e.overload_retry_after_seconds)
      × ((should_shed e.thresholds m.load ≡ true) ⊎ (l.limit ≤ l.inflight)))
    ⊎ (((r.status_code ≡ 401)
          × (r.www_authenticate ≡ true)
          × (resolve_user_id e.posture e.jwt e.mcp_user_id request ≡ unauthorized))
        ⊎ IsLimited e m request r)

-- What an answer says of the request and of the limiter.
abbrev pub Tells :
    Endpoint → Moment → Request → ConcurrencyLimiter → Answer × ConcurrencyLimiter → Type 0
Tells e m request l (handle_mcp user_id, after) = IsAdmitted e m request l user_id after
Tells e m request l (refused r, after) = (after ≡ l) × IsRefused e m request l r
Tells e m request l (Answer.raised error, after) = after ≡ l

module _ (e : Endpoint) (m : Moment) (request : Request) (l : ConcurrencyLimiter)
    (healthy : should_shed e.thresholds m.load ≡ false) where
  rate-Tells :
      (user_id : String) (r : Result RateLimitDecision)
      → resolve_user_id e.posture e.jwt e.mcp_user_id request ≡ user user_id
      → check_rate_limit user_id m.jobs e.rate_limits m.now ≡ r
      → Tells e m request l (by_rate e user_id l r)
  unfolding enter
  rate-Tells user_id (err error) known same = refl
  rate-Tells user_id (ok (reject reason seconds)) known same = (
    refl,
    inr (
        inr (record {
          user_id = user_id;
          known = known;
          reason = reason;
          seconds = seconds;
          rejected = same;
          status = refl;
          retry_after = refl;
        })),
  )
  rate-Tells user_id (ok allow) known same = elim (Bool-cases (leb l.limit l.inflight)) [
    | inl full ↦ rw (enter, full) (refl, inl (refl, refl, inr (ground (arith, full))))
    | inr room ↦
        rw (enter, room)
          (record {
            healthy = healthy;
            known = known;
            allowed = same;
            room = ground (arith, room);
            place = refl;
          })
  ]

  identity-Tells :
      (i : Identity)
      → resolve_user_id e.posture e.jwt e.mcp_user_id request ≡ i
      → Tells e m request l (by_identity e m l i)
  unfolding by_identity by_rate
  identity-Tells unauthorized same = (refl, inr (inl (refl, refl, same)))
  identity-Tells (failed error) same = refl
  identity-Tells (user user_id) same =
      rate-Tells user_id (check_rate_limit user_id m.jobs e.rate_limits m.now) same refl

-- A request reaches the MCP server, for a user, only where the service is healthy, the user is the
-- one its credentials resolve to, the rate limit allows it and there was room below the concurrency
-- limit, of which it then takes one place; a refusal leaves the limiter as it was and tells which
-- check failed: 503 with the configured delay where the service is loaded or full, 401 where the
-- credentials resolve to nobody, and 429 with the seconds to wait where the rate limit rejects the
-- user.
pub call-Tells :
    (e : Endpoint) (m : Moment) (request : Request) (l : ConcurrencyLimiter)
    → Tells e m request l (call e m request l)
unfolding call
call-Tells e m request l = elim (Bool-cases (should_shed e.thresholds m.load)) [
  | inl loaded ↦ rw loaded (refl, inl (refl, refl, inl loaded))
  | inr healthy ↦ rw healthy (
      identity-Tells e m request l healthy (resolve_user_id e.posture e.jwt e.mcp_user_id request)
        refl)
]

-- A request is let in, and takes a place, where the service is healthy, its user is known, the rate
-- limit allows it and the limiter has room.
pub call-admits :
    (e : Endpoint) (m : Moment) (request : Request) (l : ConcurrencyLimiter) (user_id : String)
    → should_shed e.thresholds m.load ≡ false
    → resolve_user_id e.posture e.jwt e.mcp_user_id request ≡ user user_id
    → check_rate_limit user_id m.jobs e.rate_limits m.now ≡ ok allow
    → l.inflight < l.limit
    → call e m request l ≡ (handle_mcp user_id, record l { inflight = l.inflight + 1 })
unfolding call enter
call-admits e m request l user_id healthy known allowed room =
    let below : leb l.limit l.inflight ≡ false = ground (arith, room) in
    rw (healthy, known, by_identity, allowed, by_rate, acquire, enter, below) refl

-- The subject of the token that the header carries.
abbrev IsSubject : Jwt → (jwks_uri issuer audience : String) → Request → String → Type 0
IsSubject jwt jwks_uri issuer audience request user_id =
    (token : String) × (extract_bearer request ≡ some token)
    × (jwt.decode token (some issuer) audience (some jwks_uri) ≡ claims (some user_id))
    × (user_id ≢ "")

module _ (jwt : Jwt) (jwks_uri issuer audience : String) (request : Request)
    (user_id : String) where
  validated-IsSubject : (v : Validated) → by_validated v ≡ user user_id → v ≡ auth_context user_id
  validated-IsSubject (auth_context found) h =
      let same : found ≡ user_id = cc h in ap auth_context same
  validated-IsSubject token_validation_error h = absurd (cc h)
  validated-IsSubject (Validated.raised error) h = absurd (cc h)

  pub resolve-IsSubject :
      (mcp_user_id : Option String)
      → resolve_user_id (bearer_verified jwks_uri issuer audience) jwt mcp_user_id request
        ≡ user user_id
      → IsSubject jwt jwks_uri issuer audience request user_id
  unfolding resolve_user_id
  resolve-IsSubject mcp_user_id h = elim (Option-cases (extract_bearer request)) [
    | inl missing ↦ absurd (cc (rw missing at h))
    | inr (token, found) ↦
        let v =
          validated-IsSubject (validate_token jwt token (some issuer) audience (some jwks_uri))
            (rw found at h) in
        let d = validate_token-named jwt token (some issuer) audience (some jwks_uri) user_id v in
        (token, found, d.0, d.1)
  ]

-- Where tokens are verified, whoever is let in is the subject of the token.
abbrev pub TellsSubject : Endpoint → (jwks_uri issuer audience : String) → Request → Answer → Type 0
TellsSubject e jwks_uri issuer audience request (handle_mcp user_id) =
    IsSubject e.jwt jwks_uri issuer audience request user_id
TellsSubject e jwks_uri issuer audience request _ = Unit

-- Where bearer tokens are verified, a request that reaches the MCP server acts for the subject of
-- the token in its Authorization header, which validates against the configured keys, issuer and
-- audience and has a subject that is not empty; what X-User-Id says changes nothing of the answer.
pub call-IsSubject :
    (e : Endpoint) (m : Moment) (request : Request) (l : ConcurrencyLimiter)
    (jwks_uri issuer audience : String) (name : Option String)
    → e.posture ≡ bearer_verified jwks_uri issuer audience
    → TellsSubject e jwks_uri issuer audience request (call e m request l).0
      × (call e m (record request { x_user_id = name }) l ≡ call e m request l)
unfolding call resolve_user_id extract_bearer
call-IsSubject e m request l jwks_uri issuer audience name verifies =
    (by_answer (call e m request l) (call-Tells e m request l), rw (call, verifies) refl)
  where
    by_answer :
        (a : Answer × ConcurrencyLimiter)
        → Tells e m request l a
        → TellsSubject e jwks_uri issuer audience request a.0
    by_answer (handle_mcp user_id, after) h =
        resolve-IsSubject e.jwt jwks_uri issuer audience request user_id e.mcp_user_id (
          let known : resolve_user_id e.posture e.jwt e.mcp_user_id request ≡ user user_id =
            h.known in
          rw verifies at known)
    by_answer (refused r, after) h = tt
    by_answer (Answer.raised error, after) h = tt
