-- ===== src/Actions/HttpCall.antt =====
-- app/actions/http_call.py. The answer to the request is the parameter `request`; bytes are numbers
-- below 256, and `decode` is their decoding as UTF-8 with replacement.
use task_scheduler_mcp.Secrets.Json.{Value}
use task_scheduler_mcp.Secrets.Resolver.{Env, resolve, build_effective_whitelist}
use task_scheduler_mcp.Common.{
  ℕ, String, Bool, true, false, ◌&&◌, Option, none, some, List, ltb, leb, if◌then◌else◌, take,
}

-- `MAX_RESPONSE_BYTES`
abbrev max_response_bytes : ℕ
max_response_bytes = 2048

pub record HttpCallParams : Type 0 where
  pub method : String
  pub url : Value
  pub headers : Value
  pub body : Value

pub data HttpResponse : Type 0 where
  unreached : HttpResponse
  answered : (status_code : ℕ) → (content : List ℕ) → HttpResponse
  -- an exception that is no RequestError, such as httpx.InvalidURL, or UnicodeEncodeError of the body
  raises : HttpResponse

pub data HttpCallResult : Type 0 where
  called : (status_code : ℕ) → (body : String) → HttpCallResult
  failed : (retryable : Bool) → HttpCallResult
  -- `execute` raises
  raised : HttpCallResult

pub record HttpWorld : Type 0 where
  pub env : Env
  pub request : String → (url headers body : Value) → HttpResponse
  pub decode : List ℕ → String

-- The three documents with their variables replaced, in the order of the source.
abbrev resolve_params : Option Value → Option Value → Option Value → Option (Value × Value × Value)
resolve_params (some headers) (some url) (some body) = some (headers, url, body)
resolve_params _ _ _ = none

abbrev pub by_response : HttpWorld → HttpResponse → HttpCallResult
by_response world unreached = failed true
by_response world raises = raised
by_response world (answered status_code content) =
    if leb 200 status_code && ltb status_code 300
    then called status_code (world.decode (take max_response_bytes content))
    else failed (leb 500 status_code)

abbrev pub by_params : HttpWorld → String → Option (Value × Value × Value) → HttpCallResult
by_params world method none = failed false
by_params world method (some (headers, url, body)) =
    by_response world (world.request method url headers body)

unfoldable pub execute : HttpWorld → HttpCallParams → HttpCallResult
unfolding resolve build_effective_whitelist
execute world params =
    let whitelist = build_effective_whitelist world.env in
    by_params world params.method (
      resolve_params (resolve world.env whitelist params.headers)
        (resolve world.env whitelist params.url) (resolve world.env whitelist params.body))
