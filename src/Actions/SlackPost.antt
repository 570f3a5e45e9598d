-- ===== src/Actions/SlackPost.antt =====
-- app/actions/slack_post.py. Slack's answer to the one request is the parameter `response`; the texts
-- of the formatters are a parameter.
pub mod Retries
use task_scheduler_mcp.Actions.OAuthToken.{
  resolve_token, TokenAnswer, token_found, missing_connection, token_raised,
}
use task_scheduler_mcp.Actions.UpstreamReader.{Formatter, Reader, resolve_for_display}
use task_scheduler_mcp.Connections.Store.{Rows, ConnectionStore}
use task_scheduler_mcp.Mcp.StatusMapping.{mem_text}
use task_scheduler_mcp.Store.{Db}
use task_scheduler_mcp.Store.Session.{Error}
use task_scheduler_mcp.Common.{
  ℕ, String, Bool, true, false, not, ◌&&◌, Option, none, some, List, [], ◌∷◌, ltb, leb, ◌==◌,
  if◌then◌else◌,
}

pub data SlackTemplate : Type 0 where
  raw digest_v1 interview_brief : SlackTemplate

pub record SlackPostParams : Type 0 where
  pub channel : String
  pub message : Option String
  pub from_run_id : Option ℕ
  pub template : Option SlackTemplate

-- The JSON body of an answer, or a body that is none.
pub data SlackBody : Type 0 where
  not_json : SlackBody
  confirmed : (channel ts : Option String) → SlackBody
  rejected : (error : Option String) → SlackBody

pub data SlackResponse : Type 0 where
  -- a timeout or a request error
  unreached : SlackResponse
  answered : (status_code : ℕ) → SlackBody → SlackResponse

-- The ActionResult, less its texts.
pub data SlackResult : Type 0 where
  posted : (channel ts : Option String) → SlackResult
  failed : (retryable : Bool) → SlackResult
  missing : SlackResult
  raised : Error → SlackResult

-- What an execution reads. The answer may depend on the token and on the text.
pub record SlackWorld : Type 0 where
  pub reader : Reader
  pub formatters : SlackTemplate → Formatter
  pub db : Db
  pub store : Option ConnectionStore
  pub connections : Rows
  pub draw : ℕ
  pub now : ℕ
  pub response : (token channel message : String) → SlackResponse

-- `_NON_RETRYABLE_SLACK_ERRORS`
abbrev pub non_retryable_slack_errors : List String
non_retryable_slack_errors =
    "invalid_auth"
    ∷ ("token_revoked"
        ∷ ("not_authed"
            ∷ ("account_inactive"
                ∷ ("channel_not_found"
                    ∷ ("not_in_channel"
                        ∷ ("is_archived"
                            ∷ ("message_too_long" ∷ ("no_text" ∷ ("invalid_blocks" ∷ [])))))))))

abbrev pub error_code : Option String → String
error_code none = "unknown"
error_code (some e) = e

abbrev pub by_body : SlackBody → SlackResult
by_body not_json = failed false
by_body (confirmed channel ts) = posted channel ts
by_body (rejected error) = failed (not (mem_text (error_code error) non_retryable_slack_errors))

unfoldable pub classify_response : SlackResponse → SlackResult
classify_response unreached = failed true
classify_response (answered status_code body) =
    if status_code == 429
    then failed true
    else if leb 500 status_code
    then failed true
    else if not (leb 200 status_code && ltb status_code 300)
    then failed false
    else by_body body

abbrev template_of : Option SlackTemplate → SlackTemplate
template_of none = raw
template_of (some t) = t

unfoldable build_message : SlackWorld → SlackPostParams → String → Option String
unfolding resolve_for_display
build_message world params user_id = elim params.from_run_id [
  | some run_id ↦ some (
      resolve_for_display world.reader run_id world.db
        (world.formatters (template_of params.template)) user_id)
  | none ↦ params.message
]

abbrev post_message : SlackWorld → SlackPostParams → String → Option String → SlackResult
unfolding classify_response
post_message world params token none = failed false
post_message world params token (some text) =
    classify_response (world.response token params.channel text)

abbrev pub by_token : SlackWorld → SlackPostParams → String → TokenAnswer → SlackResult
unfolding build_message post_message
by_token world params user_id missing_connection = missing
by_token world params user_id (token_raised e) = raised e
by_token world params user_id (token_found token) =
    post_message world params token (build_message world params user_id)

unfoldable pub execute : SlackWorld → SlackPostParams → String → SlackResult
unfolding by_token resolve_token
execute world params user_id =
    by_token world params user_id
      (resolve_token world.store world.draw world.now user_id "slack" world.connections)
