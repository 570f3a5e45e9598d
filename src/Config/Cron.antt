-- ===== src/Config/Cron.antt =====
-- app/config/cron.py: `validate_cron_expr`. The hint is the reason, without the sentence around it.
use task_scheduler_mcp.Materializer.{Calendar}
use task_scheduler_mcp.Text.{strip, lower, codes, codes_eq, codes_start_with, count_fields}
use task_scheduler_mcp.Common.{
  String, false, not, Option, none, some, List, [], ◌∷◌, ◌==◌, if◌then◌else◌, exists,
}

pub data CronHint : Type 0 where
  cron_required : CronHint
  unsupported_prefix : (prefix : String) → CronHint
  six_fields : CronHint
  invalid_expression : (expr : String) → CronHint

-- `_ACCEPTED_SHORTCUTS`
abbrev accepted_shortcuts : List String
accepted_shortcuts = "@daily" ∷ "@hourly" ∷ "@weekly" ∷ "@monthly" ∷ "@yearly" ∷ []

-- `none` stands for `(True, None)`.
unfoldable pub validate_cron_expr : Calendar → String → Option CronHint
unfolding strip lower codes codes_eq codes_start_with count_fields
validate_cron_expr calendar cron_expr =
    let expr = strip cron_expr in
    let low = lower expr in
    if codes_start_with low (codes "@reboot")
    then some (unsupported_prefix "@reboot")
    else if codes_start_with low (codes "@every")
    then some (unsupported_prefix "@every")
    else if exists (λ s. codes_eq low (codes s)) accepted_shortcuts
    then none
    else if count_fields false (codes expr) == 6
    then some six_fields
    else if not (calendar.is_valid expr)
    then some (invalid_expression expr)
    else none
