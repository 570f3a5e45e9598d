-- ===== src/Actions/R2Upload.antt =====
-- app/actions/r2_upload.py. What the storage answers to an upload is the parameter `upload`; a content
-- is its text, and its bytes are not modelled.
use task_scheduler_mcp.Actions.UpstreamReader.{
  Reader, Resolved, resolved, accept_raw, resolve_or_terminal,
}
use task_scheduler_mcp.Secrets.Resolver.{Env, resolve_string}
use task_scheduler_mcp.Store.{Db}
use task_scheduler_mcp.Common.{ℕ, String, Bool, true, false, Option, none, some, List, leb}

pub record R2UploadParams : Type 0 where
  pub bucket_path : String
  pub content : Option String
  pub from_run_id : Option ℕ
  pub content_type : String

pub data UploadAnswer : Type 0 where
  uploaded : (etag : String) → (size_bytes : ℕ) → UploadAnswer
  -- botocore's ClientError with its status
  client_error : (status_code : ℕ) → UploadAnswer
  -- a BotoCoreError, an SSLError or an OSError
  transport_error : UploadAnswer

pub data R2Result : Type 0 where
  stored : (bucket key etag : String) → (size_bytes : ℕ) → R2Result
  failed : (retryable : Bool) → R2Result

-- The bucket and the credentials from the environment.
pub record R2Config : Type 0 where
  pub account_id : String
  pub access_key_id : String
  pub secret_access_key : String
  pub bucket : String

pub record R2World : Type 0 where
  pub env : Env
  pub whitelist : List String
  pub reader : Reader
  pub db : Db
  pub upload : R2Config → (key content content_type : String) → UploadAnswer

-- `none` where one of the four variables is missing.
abbrev config_of : Option String → Option String → Option String → Option String → Option R2Config
config_of (some account_id) (some access_key_id) (some secret_access_key) (some bucket) =
    some (record {
      account_id = account_id;
      access_key_id = access_key_id;
      secret_access_key = secret_access_key;
      bucket = bucket;
    })
config_of _ _ _ _ = none

-- The content parameter, resolved where it is given; the outer `none` is an error.
abbrev resolve_optional : Env → List String → Option String → Option (Option String)
unfolding resolve_string
resolve_optional env whitelist none = some none
resolve_optional env whitelist (some s) = elim (resolve_string env whitelist s) [
  | none ↦ none
  | some t ↦ some (some t)
]

abbrev text_of : Resolved → Option String
text_of (resolved s) = some s
text_of Resolved.terminal = none

-- `_resolve_content`
unfoldable resolve_content : R2World → R2UploadParams → Option String → String → Option String
unfolding resolve_or_terminal
resolve_content world params content user_id = elim params.from_run_id [
  | some run_id ↦ text_of (resolve_or_terminal world.reader run_id world.db accept_raw user_id)
  | none ↦ content
]

-- `_upload`
abbrev by_upload : R2Config → String → UploadAnswer → R2Result
by_upload config key (uploaded etag size_bytes) = stored config.bucket key etag size_bytes
by_upload config key (client_error status_code) = failed (leb 500 status_code)
by_upload config key transport_error = failed true

abbrev by_content : R2World → R2UploadParams → R2Config → String → Option String → R2Result
by_content world params config key none = failed false
by_content world params config key (some content) =
    by_upload config key (world.upload config key content params.content_type)

abbrev by_config :
    R2World → R2UploadParams → String → String → Option String → Option R2Config → R2Result
unfolding resolve_content
by_config world params user_id key content none = failed false
by_config world params user_id key content (some config) =
    by_content world params config key (resolve_content world params content user_id)

abbrev pub by_params :
    R2World → R2UploadParams → String → Option String → Option (Option String) → R2Result
unfolding by_config
by_params world params user_id none content = failed false
by_params world params user_id (some key) none = failed false
by_params world params user_id (some key) (some content) =
    by_config world params user_id key content (
      config_of (world.env "R2_ACCOUNT_ID") (world.env "R2_ACCESS_KEY_ID")
        (world.env "R2_SECRET_ACCESS_KEY") (world.env "R2_BUCKET"))

unfoldable pub execute : R2World → R2UploadParams → String → R2Result
unfolding by_params resolve_string resolve_optional
execute world params user_id =
    by_params world params user_id (resolve_string world.env world.whitelist params.bucket_path)
      (resolve_optional world.env world.whitelist params.content)
