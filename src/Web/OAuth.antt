-- ===== src/Web/OAuth.antt =====
-- Connecting a provider: the routes `connect`, `callback` and `disconnect` of GitHub, Slack and Google
-- in app/web/connections.py. What a provider answers to the exchange of a code is a parameter; a
-- revocation is best effort and answers nothing. The store is `none` where KMS is not configured.
pub mod Callback
pub mod Disconnect
use Prim.Native.String
use task_scheduler_mcp.Chain.{is_truthy}
use task_scheduler_mcp.Connections.KmsEnvelope.{TokenData}
use task_scheduler_mcp.Connections.Store.{Rows, ConnectionStore, upsert, get_fresh_token, delete}
use task_scheduler_mcp.Store.{second}
use task_scheduler_mcp.Store.Session.{Result, ok, err, value_error, connection_miss}
use task_scheduler_mcp.Web.Session.{
  SessionJwt, WebSettings, WebRequest, WebResponse, page, redirect, start_flow, is_wrong_state,
  get_session_user, named, deleted, value,
}
use task_scheduler_mcp.Common.{
  ℕ, ◌+◌, ◌*◌, String, Bool, true, false, not, ◌&&◌, Option, none, some, List, [], ◌∷◌,
  if◌then◌else◌,
}

-- The site's own page that a provider sends the browser back to.
abbrev pub redirect_uri : WebSettings → String → String
redirect_uri settings provider =
    String.◌++◌ settings.connections_base_url
      (String.◌++◌ "/connections/" (String.◌++◌ provider "/callback"))

module _ (jwt : SessionJwt) (settings : WebSettings) (now : ℕ) (request : WebRequest) where
  -- The user of the session, or `none` for a redirect to the login.
  abbrev pub signed_in : Option String
  unfolding get_session_user
  signed_in = named (get_session_user jwt settings now request)

  -- `client_id` is asked before the flow starts.
  unfoldable pub connect :
      Option String → String → List (String × String) → (state : String) → WebResponse
  unfolding get_session_user
  connect client_id endpoint params state = elim signed_in [
    | none ↦ redirect "/connections/login"
    | some user_id ↦
        if not (is_truthy client_id) then page 503 else start_flow endpoint params state
  ]

  unfoldable pub github_connect : String → WebResponse
  unfolding connect
  github_connect state =
      connect settings.github_client_id "https://github.com/login/oauth/authorize"
        (("client_id", value settings.github_client_id)
          ∷ (("redirect_uri", redirect_uri settings "github")
              ∷ (("scope", "read:user repo") ∷ (("state", state) ∷ []))))
        state

  unfoldable pub slack_connect : String → WebResponse
  unfolding connect
  slack_connect state =
      connect settings.slack_client_id "https://slack.com/oauth/v2/authorize"
        (("client_id", value settings.slack_client_id)
          ∷ (("redirect_uri", redirect_uri settings "slack")
              ∷ (("scope", "chat:write chat:write.public") ∷ (("state", state) ∷ []))))
        state

  unfoldable pub google_connect : String → WebResponse
  unfolding connect
  google_connect state =
      connect settings.google_client_id "https://accounts.google.com/o/oauth2/v2/auth"
        (("client_id", value settings.google_client_id)
          ∷ (("redirect_uri", redirect_uri settings "google")
              ∷ (("response_type", "code")
                  ∷ (("scope", "https://www.googleapis.com/auth/gmail.send")
                      ∷ (("access_type", "offline")
                          ∷ (("prompt", "consent") ∷ (("state", state) ∷ [])))))))
        state

-- The JSON body of a provider's answer, or the exception of the request or of its status.
pub record TokenBody : Type 0 where
  pub token_data : TokenData
  pub ok_flag : Bool
  pub expires_in : Option ℕ

abbrev pub has_token : TokenBody → Bool
has_token body = elim body.token_data.access_token [ none ↦ false | some token ↦ true ]

unfoldable pub exchange_github_code : Result TokenBody → Result TokenData
exchange_github_code (err e) = err e
exchange_github_code (ok body) = if has_token body then ok body.token_data else err value_error

unfoldable pub exchange_slack_code : Result TokenBody → Result TokenData
exchange_slack_code (err e) = err e
exchange_slack_code (ok body) = if body.ok_flag then ok body.token_data else err value_error

-- `isoformat` of the instant at which the token expires.
abbrev pub with_expiry : (ℕ → String) → ℕ → TokenBody → TokenData
with_expiry isoformat now body = elim body.expires_in [
  | none ↦ body.token_data
  | some seconds ↦ record body.token_data { expires_at = some (isoformat (now + seconds * second)) }
]

unfoldable pub exchange_google_code : (ℕ → String) → ℕ → Result TokenBody → Result TokenData
exchange_google_code isoformat now (err e) = err e
exchange_google_code isoformat now (ok body) =
    if has_token body then ok (with_expiry isoformat now body) else err value_error

module _ (jwt : SessionJwt) (settings : WebSettings) (draw now : ℕ) (request : WebRequest)
    (rows : Rows) where
  -- The upsert, committed; an exception of it is a server error and rolls back.
  abbrev pub stored : Result Rows → Result (WebResponse × Rows)
  stored (err e) = err e
  stored (ok rows') = ok (record (redirect "/connections") { oauth_state = deleted }, rows')

  abbrev pub by_exchange :
      ConnectionStore → String → String → Result TokenData → Result (WebResponse × Rows)
  unfolding upsert
  by_exchange store provider user_id (err e) = ok (page 502, rows)
  by_exchange store provider user_id (ok token_data) =
      stored (upsert store draw now user_id provider token_data rows)

  abbrev pub by_store :
      Option ConnectionStore → String → String → Result TokenData → Result (WebResponse × Rows)
  unfolding by_exchange
  by_store none provider user_id exchanged = ok (page 503, rows)
  by_store (some store) provider user_id exchanged = by_exchange store provider user_id exchanged

  unfoldable pub callback :
      Option ConnectionStore → String → Result TokenData → Result (WebResponse × Rows)
  unfolding by_store get_session_user is_wrong_state
  callback store provider exchanged = elim (signed_in jwt settings now request) [
    | none ↦ ok (redirect "/connections/login", rows)
    | some user_id ↦
        if not (is_truthy request.code)
        then ok (page 400, rows)
        else if is_wrong_state request
        then ok (page 400, rows)
        else by_store store provider user_id exchanged
  ]

  unfoldable pub github_callback :
      Option ConnectionStore → Result TokenBody → Result (WebResponse × Rows)
  unfolding callback exchange_github_code
  github_callback store answer = callback store "github" (exchange_github_code answer)

  unfoldable pub slack_callback :
      Option ConnectionStore → Result TokenBody → Result (WebResponse × Rows)
  unfolding callback exchange_slack_code
  slack_callback store answer = callback store "slack" (exchange_slack_code answer)

  unfoldable pub google_callback :
      (ℕ → String) → Option ConnectionStore → Result TokenBody → Result (WebResponse × Rows)
  unfolding callback exchange_google_code
  google_callback isoformat store answer =
      callback store "google" (exchange_google_code isoformat now answer)

-- What a disconnect leaves: its answer, the rows, and the token that was sent for revocation.
pub record Disconnected : Type 0 where
  pub response : WebResponse
  pub rows : Rows
  pub revoked : Option String

module _ (jwt : SessionJwt) (settings : WebSettings) (draw now : ℕ) (request : WebRequest)
    (rows : Rows) where
  abbrev pub removed : String → String → Option String → Rows → Disconnected
  removed provider user_id revoked rows' = record {
    response = redirect "/connections";
    rows = delete user_id provider rows';
    revoked = revoked;
  }

  -- A missing connection is passed over; any other exception is a server error and rolls back.
  abbrev pub by_token :
      (revokes : Bool) → String → String → Result (String × Rows) → Result Disconnected
  unfolding delete
  by_token revokes provider user_id (err connection_miss) = ok (removed provider user_id none rows)
  by_token revokes provider user_id (err e) = err e
  by_token revokes provider user_id (ok (token, rows')) =
      ok (removed provider user_id (if revokes then some token else none) rows')

  abbrev pub unchanged : WebResponse → Result Disconnected
  unchanged response = ok (record { response = response; rows = rows; revoked = none })

  unfoldable pub disconnect :
      (revokes : Bool) → Option ConnectionStore → String → Result Disconnected
  unfolding by_token get_session_user get_fresh_token
  disconnect revokes store provider = elim (signed_in jwt settings now request) [
    | none ↦ unchanged (redirect "/connections/login")
    | some user_id ↦ elim store [
      | none ↦ unchanged (redirect "/connections")
      | some store ↦
          by_token revokes provider user_id
            (get_fresh_token store draw now user_id provider none rows)
    ]
  ]

  -- GitHub is asked to revoke where the credentials of the application are configured.
  unfoldable pub github_disconnect : Option ConnectionStore → Result Disconnected
  unfolding disconnect
  github_disconnect store =
      disconnect (is_truthy settings.github_client_id && is_truthy settings.github_client_secret)
        store "github"

  unfoldable pub slack_disconnect : Option ConnectionStore → Result Disconnected
  unfolding disconnect
  slack_disconnect store = disconnect true store "slack"

  unfoldable pub google_disconnect : Option ConnectionStore → Result Disconnected
  unfolding disconnect
  google_disconnect store = disconnect true store "google"
