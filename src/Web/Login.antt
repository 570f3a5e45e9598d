-- ===== src/Web/Login.antt =====
-- Signing in: `_connections_login`, `_workos_auth_callback`, `_connections_logout` and the dashboard's
-- list, of app/web/connections.py. What WorkOS answers to the exchange of a code is the parameter
-- `exchanged`.
pub mod Identity
use task_scheduler_mcp.Auth.TokenValidation.{
  Jwt, Validated, auth_context, token_validation_error, validate_token, resolve_user_id_stdio,
}
use task_scheduler_mcp.Chain.{is_truthy}
use task_scheduler_mcp.Connections.Store.{Rows, ConnectionInfo, list_of}
use Prim.Native.String
use task_scheduler_mcp.Store.Session.{Error, Result, ok, err}
use task_scheduler_mcp.Web.Session.{
  SessionJwt, WebSettings, WebRequest, WebResponse, page, redirect, set_session, start_flow,
  is_wrong_state, get_session_user, named, deleted, value,
}
use task_scheduler_mcp.Common.{
  ℕ, String, Bool, not, ◌&&◌, ◌||◌, Option, none, some, List, [], ◌∷◌, map, str_eq, if◌then◌else◌,
}

-- The site of the sign-in service and the application's page, or the trusted name of a developer's
-- machine. `state` is what `secrets.token_urlsafe` draws.
unfoldable pub connections_login : SessionJwt → WebSettings → ℕ → String → WebResponse
unfolding set_session
connections_login jwt settings now state =
    if is_truthy settings.workos_client_id
      && (is_truthy settings.workos_client_secret && is_truthy settings.workos_issuer)
    then start_flow (String.◌++◌ settings.workos_api_base_url "/user_management/authorize")
        (("response_type", "code")
          ∷ (("client_id", value settings.workos_client_id)
              ∷ ((
                "redirect_uri",
                String.◌++◌ settings.connections_base_url "/connections/auth/callback",
              )
                  ∷ (("scope", "openid profile email")
                      ∷ (("state", state) ∷ (("provider", "authkit") ∷ []))))))
        state
    else set_session jwt settings now (resolve_user_id_stdio settings.mcp_user_id)
        (redirect "/connections")

unfoldable pub connections_logout : WebResponse
connections_logout = record (redirect "/connections/login") { session = deleted }

-- The body of a successful answer: `access_token`, `id_token`, and `user.id`.
pub record TokenBody : Type 0 where
  pub access_token : Option String
  pub id_token : Option String
  pub user_id : Option String

pub data Exchanged : Type 0 where
  -- httpx.RequestError
  unreached : Exchanged
  -- a status that is no success
  refused : Exchanged
  -- a body that is not the JSON of an object
  unreadable : Error → Exchanged
  answered : TokenBody → Exchanged

-- `user_id` of the id_token, or the empty text where there is none to trust.
abbrev pub of_id_token : Validated → Result String
of_id_token (auth_context user_id) = ok user_id
of_id_token token_validation_error = ok ""
of_id_token (Validated.raised e) = err e

-- `_verify_id_token_sub`, where there is an id_token and the keys and the issuer are configured.
unfoldable pub by_id_token : Jwt → WebSettings → TokenBody → Result String
unfolding validate_token
by_id_token jwt settings body =
    if not (is_truthy body.id_token)
      || (not (is_truthy settings.workos_jwks_uri) || not (is_truthy settings.workos_issuer))
    then ok ""
    else of_id_token (
        validate_token jwt (value body.id_token) settings.workos_issuer
          (value settings.workos_client_id) settings.workos_jwks_uri)

abbrev pub by_access_token : Jwt → WebSettings → TokenBody → Validated → Result String
unfolding by_id_token
by_access_token jwt settings body (auth_context user_id) = ok user_id
by_access_token jwt settings body token_validation_error = by_id_token jwt settings body
by_access_token jwt settings body (Validated.raised e) = err e

-- The user object of the body, where neither token named a user.
abbrev pub or_user_object : TokenBody → String → String
or_user_object body user_id = if str_eq user_id "" then value body.user_id else user_id

unfoldable pub identity_of : Jwt → WebSettings → TokenBody → Result String
unfolding validate_token by_access_token
identity_of jwt settings body =
    elim (by_access_token jwt settings body (
      validate_token jwt (value body.access_token) settings.workos_issuer
        (value settings.workos_audience) settings.workos_jwks_uri)) [
          | err e ↦ err e
          | ok user_id ↦ ok (or_user_object body user_id)
        ]

abbrev pub sign_in : SessionJwt → WebSettings → ℕ → Result String → Result WebResponse
unfolding set_session
sign_in sessions settings now (err e) = err e
sign_in sessions settings now (ok user_id) =
    if str_eq user_id ""
    then ok (page 502)
    else ok (record (set_session sessions settings now user_id (redirect "/connections")) {
      oauth_state = deleted;
    })

abbrev pub by_exchange : SessionJwt → Jwt → WebSettings → ℕ → Exchanged → Result WebResponse
unfolding identity_of sign_in
by_exchange sessions jwt settings now unreached = ok (page 502)
by_exchange sessions jwt settings now refused = ok (page 502)
by_exchange sessions jwt settings now (unreadable e) = err e
by_exchange sessions jwt settings now (answered body) =
    if not (is_truthy body.access_token)
    then ok (page 502)
    else sign_in sessions settings now (identity_of jwt settings body)

unfoldable pub workos_auth_callback :
    SessionJwt → Jwt → WebSettings → ℕ → WebRequest → Exchanged → Result WebResponse
unfolding by_exchange is_wrong_state
workos_auth_callback sessions jwt settings now request exchanged =
    if not (is_truthy request.code)
    then ok (page 400)
    else if is_wrong_state request
    then ok (page 400)
    else by_exchange sessions jwt settings now exchanged

-- The providers that the dashboard shows as connected; `configured` says that KMS is, and `readable`
-- is false where the database fails.
unfoldable pub connections_dashboard :
    SessionJwt
    → WebSettings
    → ℕ
    → WebRequest
    → (configured readable : Bool) → Rows
    → WebResponse × List String
unfolding get_session_user list_of
connections_dashboard jwt settings now request configured readable rows =
    elim (named (get_session_user jwt settings now request)) [
      | none ↦ (redirect "/connections/login", [])
      | some user_id ↦ (
        page 200,
        if configured && readable
            then map (λ (i : ConnectionInfo). i.provider) (list_of user_id rows)
            else [],
      )
    ]
