-- ===== src/Examples/Web.antt =====
-- The theorems on the HTTP endpoint and on the pages, applied.
use Prim.Native.Char.{code}
use task_scheduler_mcp.Auth.Posture.{bearer_verified}
use task_scheduler_mcp.Auth.TokenValidation.{Jwt, claims, invalid_token}
use task_scheduler_mcp.Examples.{sample}
use task_scheduler_mcp.Examples.Tokens.{store, rows, rows-IsKeyed, token_data}
use task_scheduler_mcp.Http.{Endpoint, Moment, Request, call}
use task_scheduler_mcp.Http.Admission.{call-Tells, Tells, call-IsSubject, TellsSubject}
use task_scheduler_mcp.Overload.Limiter.{ConcurrencyLimiter}
use task_scheduler_mcp.Store.{second, hour}
use task_scheduler_mcp.Store.Session.{ok, Result}
use task_scheduler_mcp.Web.Session.{
  SessionJwt, IsSigning, WebSettings, WebRequest, get_session_user, create_session_token,
}
use task_scheduler_mcp.Web.Session.Lifetime.{get_session_user-create}
use task_scheduler_mcp.Web.Login.{workos_auth_callback, answered, Exchanged}
use task_scheduler_mcp.Web.Login.Identity.{workos_auth_callback-SignsIn, SignsIn}
use task_scheduler_mcp.Web.OAuth.{
  TokenBody, github_callback, slack_callback, google_callback, exchange_github_code,
  exchange_slack_code, exchange_google_code, github_disconnect, slack_disconnect, google_disconnect,
}
use task_scheduler_mcp.Web.OAuth.Callback.{callbacks-Connect, Connects}
use task_scheduler_mcp.Web.OAuth.Disconnect.{disconnects-Remove, Removes}
use task_scheduler_mcp.Common.{
  ℕ, zero, suc, ◌*◌, ◌/◌, String, ◌≡◌, refl, ◌≢◌, true, false, none, some, arith, str_eq, ltb, ◌==◌,
  if◌then◌else◌,
}

-- Bearer tokens are the names of their subjects.
abbrev bearer : Jwt
bearer = record {
  decode = λ token issuer audience jwks_uri.
      if str_eq token "" then invalid_token else claims (some token);
}

abbrev endpoint : Endpoint
endpoint = record {
  posture = bearer_verified "keys" "issuer" "audience";
  jwt = bearer;
  mcp_user_id = none;
  thresholds = record { cpu = 90; ram = 90; queue_depth = 1000 };
  rate_limits = record { daily = 100; burst = 5 };
  overload_retry_after_seconds = 10;
}

abbrev moment : Moment
moment = record {
  load = record { cpu = 10; ram = 20; queue_depth = 3 };
  jobs = sample.jobs;
  now = 100;
}

abbrev request : Request
request = record { authorization = some "Bearer ann"; x_user_id = some "bob" }

abbrev limiter : ConcurrencyLimiter
limiter = record { limit = 20; inflight = 3 }

call-Tells_example : Tells endpoint moment request limiter (call endpoint moment request limiter)
call-Tells_example = call-Tells endpoint moment request limiter

call-IsSubject_example :
    TellsSubject endpoint "keys" "issuer" "audience" request
      (call endpoint moment request limiter).0
    × (call endpoint moment (record request { x_user_id = none }) limiter
        ≡ call endpoint moment request limiter)
call-IsSubject_example =
    call-IsSubject endpoint moment request limiter "keys" "issuer" "audience" none refl

-- Session tokens carry their expiry in unary.
ticks : ℕ → String → String
ticks zero s = String.◌∷◌ "." s
ticks (suc n) s = String.◌∷◌ "1" (ticks n s)

unticks : String → ℕ × String
unticks String.[] = (0, "")
unticks (String.◌∷◌ c s) =
    let rest = unticks s in if code c == 46 then (0, s) else (suc rest.0, rest.1)

unticks-ticks : (n : ℕ) (s : String) → unticks (ticks n s) ≡ (n, s)
unfolding ticks unticks
unticks-ticks zero s = refl
unticks-ticks (suc n) s = rw (unticks-ticks n s) refl

ticks-ne : (n : ℕ) (s : String) → ticks n s ≢ ""
unfolding ticks
ticks-ne zero s h = cc
ticks-ne (suc n) s h = cc

abbrev session_jwt : SessionJwt
unfolding ticks unticks
session_jwt = record {
  encode = λ secret sub iat exp. ticks exp sub;
  decode = λ secret now token.
      if ltb (now / second) (unticks token).0 then some (some (unticks token).1) else none;
}

session_jwt-IsSigning : IsSigning session_jwt
unfolding session_jwt
session_jwt-IsSigning = record {
  opens = λ secret sub iat exp now h k.
      let valid : ltb (now / second) exp ≡ true = ground (arith, h) in
      rw (unticks-ticks exp sub, valid) refl;
  not_empty = λ secret sub iat exp. ticks-ne exp sub;
  expires = λ secret sub iat exp now h.
      let over : ltb (now / second) exp ≡ false = ground (arith, h) in
      rw (unticks-ticks exp sub, over) refl;
}

abbrev settings : WebSettings
settings = record {
  web_session_secret = "secret";
  workos_client_id = some "client";
  workos_client_secret = some "hidden";
  workos_issuer = some "issuer";
  workos_jwks_uri = some "keys";
  workos_audience = some "audience";
  workos_api_base_url = "https://api";
  connections_base_url = "https://site";
  github_client_id = some "gh";
  github_client_secret = some "gs";
  slack_client_id = none;
  google_client_id = some "go";
  mcp_user_id = none;
}

-- A browser that has signed in, and comes back with a code and its state.
abbrev returning : WebRequest
unfolding create_session_token
returning = record {
  cookies = record {
    session = some (create_session_token session_jwt settings 5 "ann");
    oauth_state = some "s1";
  };
  code = some "c1";
  state = some "s1";
}

get_session_user-create_example :
    get_session_user session_jwt settings (3 * hour) returning ≡ some "ann"
unfolding returning
get_session_user-create_example =
    get_session_user-create session_jwt settings 5 (3 * hour) "ann" returning session_jwt-IsSigning
      (omega arith) refl

abbrev exchanged : Exchanged
exchanged = answered (record { access_token = some "t"; id_token = none; user_id = some "ann" })

workos_auth_callback-SignsIn_example :
    SignsIn session_jwt bearer settings 5 returning exchanged
      (workos_auth_callback session_jwt bearer settings 5 returning exchanged)
workos_auth_callback-SignsIn_example =
    workos_auth_callback-SignsIn session_jwt bearer settings 5 returning exchanged

abbrev answer : Result TokenBody
answer = ok (record { token_data = token_data; ok_flag = true; expires_in = none })

callbacks-Connect_example :
    Connects session_jwt settings 1 60 returning rows
      (some store)
      "github"
      (exchange_github_code answer)
      (github_callback session_jwt settings 1 60 returning rows (some store) answer)
    × Connects session_jwt settings 1 60 returning rows
        (some store)
        "slack"
        (exchange_slack_code answer)
        (slack_callback session_jwt settings 1 60 returning rows (some store) answer)
    × Connects session_jwt settings 1 60 returning rows
        (some store)
        "google"
        (exchange_google_code (λ t. "") 60 answer)
        (google_callback session_jwt settings 1 60 returning rows (λ t. "") (some store) answer)
callbacks-Connect_example =
    callbacks-Connect session_jwt settings 1 60 returning rows (some store) (λ t. "") answer
      rows-IsKeyed

disconnects-Remove_example :
    Removes session_jwt settings 1 60 returning rows "github"
      (some store)
      (github_disconnect session_jwt settings 1 60 returning rows (some store))
    × Removes session_jwt settings 1 60 returning rows "slack"
        (some store)
        (slack_disconnect session_jwt settings 1 60 returning rows (some store))
    × Removes session_jwt settings 1 60 returning rows "google"
        (some store)
        (google_disconnect session_jwt settings 1 60 returning rows (some store))
disconnects-Remove_example =
    disconnects-Remove session_jwt settings 1 60 returning rows (some store) rows-IsKeyed
