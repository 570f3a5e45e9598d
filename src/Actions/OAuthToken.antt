-- ===== src/Actions/OAuthToken.antt =====
-- The start of the actions that act over OAuth, in app/actions/slack_post.py and
-- app/actions/github_digest.py: the check of the connection, and the token. Neither has a refresher.
use task_scheduler_mcp.Connections.Preflight.{proceeds, check_oauth_for_execute, OauthCheck}
use task_scheduler_mcp.Connections.Store.{is_for, Rows, ConnectionStore, get_token}
use task_scheduler_mcp.Store.Session.{connection_miss, type_error, ok, err, Result, Error}
use task_scheduler_mcp.Common.{ℕ, String, Option, none, some, if◌then◌else◌, exists}

pub data TokenAnswer : Type 0 where
  token_found : String → TokenAnswer
  missing_connection : TokenAnswer
  token_raised : Error → TokenAnswer

abbrev by_result : Result String → TokenAnswer
by_result (ok token) = token_found token
by_result (err connection_miss) = missing_connection
by_result (err e) = token_raised e

-- Where KMS is not configured a missing row is found missing, and a row that is there cannot be
-- decrypted, which raises.
abbrev stored_token : Option ConnectionStore → ℕ → ℕ → String → String → Rows → Result String
unfolding get_token
stored_token none draw now user_id provider rows =
    if exists (is_for user_id provider) rows then err type_error else err connection_miss
stored_token (some store) draw now user_id provider rows =
    (get_token store draw now user_id provider none rows).0

abbrev pub by_check : OauthCheck → Result String → TokenAnswer
by_check OauthCheck.missing_connection token = missing_connection
by_check proceeds token = by_result token

unfoldable pub resolve_token : Option ConnectionStore → ℕ → ℕ → String → String → Rows → TokenAnswer
unfolding check_oauth_for_execute stored_token
resolve_token store draw now user_id provider rows =
    by_check (check_oauth_for_execute store draw now user_id provider none rows)
      (stored_token store draw now user_id provider rows)
