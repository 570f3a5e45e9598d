-- ===== src/Actions/Disclosure.antt =====
-- What the actions with variables in their params may tell of the environment.
use task_scheduler_mcp.Actions.CalendarDigest
use task_scheduler_mcp.Actions.HttpCall
use task_scheduler_mcp.Mcp.StatusMapping.{mem_text}
use task_scheduler_mcp.Secrets.Resolver.{Env, build_effective_whitelist}
use task_scheduler_mcp.Common.{String, ◌≡◌, true}

-- Two environments have the same list of extra variables, and agree on each variable that the one
-- list allows.
pub record Agree (env other : Env) : Type 0 where
  pub extra : env "ALLOWED_TEMPLATE_VARS" ≡ other "ALLOWED_TEMPLATE_VARS"
  pub listed :
      (name : String) → mem_text name (build_effective_whitelist env) ≡ true → env name ≡ other name
