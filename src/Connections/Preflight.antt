-- ===== src/Connections/Preflight.antt =====
-- The checks of a connection: `_check_oauth_connection` of app/mcp/server.py before a creation, and
-- `check_oauth_for_execute` of app/actions/_oauth.py before an execution. KMS is not configured
-- where the store is `none`.
pub mod Gate
use task_scheduler_mcp.Store.{is_none}
use task_scheduler_mcp.Connections.Store.{
  is_for, TokenRefresher, Rows, ConnectionStore, get_fresh_token,
}
use task_scheduler_mcp.Store.Session.{connection_miss, err, ok, Result}
use task_scheduler_mcp.Common.{
  ℕ, String, Bool, false, Option, none, some, leb, if◌then◌else◌, head?, select,
}

pub data OauthCheck : Type 0 where
  proceeds missing_connection : OauthCheck

-- The answer of the session that only looks.
abbrev pub preflight_of : Result (String × Rows) → OauthCheck
preflight_of (ok r) = proceeds
preflight_of (err connection_miss) = missing_connection
preflight_of (err e) = proceeds

-- `required_provider` is `none` where the action is unknown, needs no OAuth connection or names no
-- provider.
unfoldable pub check_oauth_connection :
    Option ConnectionStore → ℕ → ℕ → Option String → String → Rows → OauthCheck
unfolding get_fresh_token
check_oauth_connection store draw now none user_id rows = proceeds
check_oauth_connection none draw now (some provider) user_id rows = proceeds
check_oauth_connection (some store) draw now (some provider) user_id rows =
    preflight_of (get_fresh_token store draw now user_id provider none rows)

abbrev pub is_expired : Option ℕ → ℕ → Bool
is_expired none now = false
is_expired (some expires_at) now = leb expires_at now

abbrev pub refreshed : Result (String × Rows) → OauthCheck
refreshed (ok r) = proceeds
refreshed (err e) = missing_connection

abbrev pub check_expiry :
    ConnectionStore → ℕ → ℕ → String → String → TokenRefresher → Option ℕ → Rows → OauthCheck
unfolding get_fresh_token
check_expiry store draw now user_id provider refresher expires_at rows =
    if is_expired expires_at now
    then if is_none refresher
      then missing_connection
      else refreshed (get_fresh_token store draw now user_id provider refresher rows)
    else proceeds

unfoldable pub check_oauth_for_execute :
    Option ConnectionStore → ℕ → ℕ → String → String → TokenRefresher → Rows → OauthCheck
unfolding check_expiry
check_oauth_for_execute none draw now user_id provider refresher rows = proceeds
check_oauth_for_execute (some store) draw now user_id provider refresher rows =
    elim (head? (select (is_for user_id provider) rows)) [
      | none ↦ missing_connection
      | some row ↦ check_expiry store draw now user_id provider refresher row.expires_at rows
    ]
