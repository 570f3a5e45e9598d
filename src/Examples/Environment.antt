-- ===== src/Examples/Environment.antt =====
-- The theorem on the actions that resolve secrets, applied: one variable is on the whitelist, another is not.
use task_scheduler_mcp.Actions.CalendarDigest.{CalendarWorld, CalendarParams}
use task_scheduler_mcp.Actions.CalendarDigest
use task_scheduler_mcp.Actions.HttpCall.{HttpWorld, HttpCallParams}
use task_scheduler_mcp.Actions.HttpCall
use task_scheduler_mcp.Secrets.Json.{scalar, Value, object, field, string, empty}
use task_scheduler_mcp.Text.{strip}
use task_scheduler_mcp.Secrets.Resolver.{
  build_effective_whitelist, split_commas, resolve_string, Env, resolve,
}
use task_scheduler_mcp.Common.{◌≡◌, refl, none, some, [], str_eq, if◌then◌else◌}

abbrev env : Env
env name =
    if str_eq "GITHUB_TOKEN" name
    then some "t1"
    else if str_eq "ALLOWED_TEMPLATE_VARS" name
    then some " TEAM, "
    else if str_eq "DATABASE_URL" name
    then some "postgres://"
    else none

abbrev other_env : Env
other_env name =
    if str_eq "GITHUB_TOKEN" name
    then some "t1"
    else if str_eq "ALLOWED_TEMPLATE_VARS" name
    then some " TEAM, "
    else none

abbrev document : Value
document = object (field "header" (string "token ${GITHUB_TOKEN}") empty)

resolves :
    resolve env (build_effective_whitelist env) document
    ≡ some (object (field "header" (string "token t1") empty))
unfolding resolve resolve_string build_effective_whitelist split_commas strip
resolves = refl

abbrev caller : HttpWorld
caller = record {
  env = env;
  request = λ method url headers body. HttpCall.unreached;
  decode = λ bytes. "";
}

abbrev call : HttpCallParams
call = record {
  method = "GET";
  url = string "https://api";
  headers = document;
  body = scalar "null";
}

abbrev reader : CalendarWorld
reader = record {
  env = env;
  get = λ url. CalendarDigest.unreached;
  from_ical = λ s. none;
  lower = λ s. [];
  today = 0;
}

abbrev params : CalendarParams
params = record {
  ics_url = string "https://cal/${GITHUB_TOKEN}";
  date_range_days = 1;
  title_contains = none;
}
