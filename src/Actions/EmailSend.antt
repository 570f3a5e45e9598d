-- ===== src/Actions/EmailSend.antt =====
-- `EmailSendHandler.execute` of app/actions/email_send.py. The provider's answer to the one request is
-- the parameter `response`; `key` is what `derive_idempotency_key` makes of the run.
use task_scheduler_mcp.Store.{Db}
use task_scheduler_mcp.Connections.Preflight.{proceeds, check_oauth_for_execute, OauthCheck}
use task_scheduler_mcp.Connections.Store.{is_for, TokenRefresher, Rows, ConnectionStore, get_token}
use task_scheduler_mcp.Actions.UpstreamReader.{Formatter, resolve_for_display, Reader}
use task_scheduler_mcp.Actions.SendDedup.{is_skip, begin_send, SendGate, mark_sent, SendIntent}
use task_scheduler_mcp.Store.Session.{connection_miss, type_error, ok, err, Result, Error}
pub mod Once
use task_scheduler_mcp.Common.{
  ℕ, zero, suc, ◌+◌, ◌-◌, ◌*◌, ◌/◌, ◌%◌, ◌≤◌, ◌<◌, String, ◌≡◌, refl, ◌∙◌, ◌≢◌, ◌↔◌, ◌⊎◌, inl, inr,
  Bool, true, false, not, ◌&&◌, ◌||◌, Option, none, some, List, [], ◌∷◌, ◌++◌, str_eq, ltb, leb,
  ◌==◌, if◌then◌else◌, exists,
}

pub record EmailSendParams : Type 0 where
  pub body : Option String
  pub from_run_id : Option ℕ

pub data Response : Type 0 where
  -- a timeout or a request error
  unreached : Response
  answered : (status_code : ℕ) → (message_id : Option String) → Response

-- The ActionResult of an execution, less its texts; `raised` where the execution raises.
pub data EmailResult : Type 0 where
  delivered : (provider_message_id : Option String) → (deduped : Bool) → EmailResult
  failed : (retryable : Bool) → EmailResult
  missing : EmailResult
  raised : Error → EmailResult

-- What an execution leaves: its result, the intents, and how often it called the provider.
pub record Executed : Type 0 where
  pub result : EmailResult
  pub intents : List SendIntent
  pub posts : ℕ

-- What an execution reads besides its intents.
pub record World : Type 0 where
  pub reader : Reader
  pub formatter : Formatter
  pub db : Db
  pub store : Option ConnectionStore
  pub connections : Rows
  pub refresher : TokenRefresher
  pub draw : ℕ
  pub now : ℕ
  pub response : Response

unfoldable pub build_body : World → EmailSendParams → String → Option String
unfolding resolve_for_display
build_body world params user_id = elim params.from_run_id [
  | some run_id ↦ some (resolve_for_display world.reader run_id world.db world.formatter user_id)
  | none ↦ params.body
]

abbrev pub stop : EmailResult → List SendIntent → Executed
stop result intents = record { result = result; intents = intents; posts = 0 }

-- The answer to the request, in the order of the tests on the status.
unfoldable pub classify : ℕ → String → Response → List SendIntent → EmailResult × List SendIntent
unfolding mark_sent
classify now key unreached intents = (failed true, intents)
classify now key (answered status_code message_id) intents =
    if status_code == 401
    then (failed false, intents)
    else if status_code == 403
    then (failed false, intents)
    else if status_code == 429
    then (failed true, intents)
    else if leb 500 status_code
    then (failed true, intents)
    else if not (leb 200 status_code && ltb status_code 300)
    then (failed false, intents)
    else (delivered message_id false, mark_sent now key message_id intents)

abbrev pub post : World → String → List SendIntent → Executed
unfolding classify
post world key intents =
    let sent = classify world.now key world.response intents in
    record { result = sent.0; intents = sent.1; posts = 1 }

-- The gate, and what its decision asks for.
abbrev pub by_decision : World → String → SendGate × List SendIntent → Executed
unfolding post
by_decision world key (gate, intents) =
    if is_skip gate.decision
    then stop (delivered gate.provider_message_id true) intents
    else post world key intents

abbrev pub by_token : World → String → ℕ → Result String → List SendIntent → Executed
unfolding begin_send by_decision
by_token world key run_id (err connection_miss) intents = stop missing intents
by_token world key run_id (err e) intents = stop (raised e) intents
by_token world key run_id (ok token) intents =
    by_decision world key (begin_send world.now key run_id intents)

-- `get_token`. Where KMS is not configured there is no envelope: a missing row is found missing, and a
-- row that is there cannot be decrypted, which raises.
abbrev pub token_for : World → String → Result String
unfolding get_token
token_for world user_id = elim world.store [
  | none ↦
      if exists (is_for user_id "google") world.connections
      then err type_error
      else err connection_miss
  | some store ↦
      (get_token store world.draw world.now user_id "google" world.refresher world.connections).0
]

abbrev pub by_check : World → String → ℕ → String → OauthCheck → List SendIntent → Executed
unfolding by_token token_for
by_check world key run_id user_id OauthCheck.missing_connection intents = stop missing intents
by_check world key run_id user_id proceeds intents =
    by_token world key run_id (token_for world user_id) intents

unfoldable pub send_via_gmail : World → String → ℕ → String → List SendIntent → Executed
unfolding by_check check_oauth_for_execute
send_via_gmail world key run_id user_id intents =
    if str_eq user_id ""
    then stop (failed false) intents
    else by_check world key run_id user_id
        (check_oauth_for_execute world.store world.draw world.now user_id "google" world.refresher
          world.connections)
        intents

unfoldable pub execute : World → String → ℕ → String → EmailSendParams → List SendIntent → Executed
unfolding build_body send_via_gmail
execute world key run_id user_id params intents = elim (build_body world params user_id) [
  | none ↦ stop (failed false) intents
  | some body ↦ send_via_gmail world key run_id user_id intents
]
