-- ===== src/Config/Timezone.antt =====
-- app/config/timezone_resolver.py.
use task_scheduler_mcp.Materializer.{
  Calendar, zone_found, zone_missing, zone_unreadable, zone_malformed,
}
use task_scheduler_mcp.Text.{strip}
use task_scheduler_mcp.Store.Session.{Result, ok, err, value_error}
use task_scheduler_mcp.Common.{
  String, Bool, true, false, Option, none, some, List, [], ◌∷◌, str_eq, if◌then◌else◌,
}

-- `_is_valid_iana`: the ValueError of a malformed key goes on.
unfoldable is_valid_iana : Calendar → Option String → Result Bool
unfolding strip
is_valid_iana calendar none = ok false
is_valid_iana calendar (some value) =
    if str_eq (strip value) "" then ok false else elim (calendar.zone value) [
      | zone_found ↦ ok true
      | zone_missing ↦ ok false
      | zone_unreadable ↦ ok false
      | zone_malformed ↦ err value_error
    ]

-- The loop over the candidates, from the highest priority down.
abbrev first_valid : Calendar → List (Option String) → Result String
unfolding is_valid_iana
first_valid calendar [] = ok "UTC"
first_valid calendar (none ∷ rest) = first_valid calendar rest
first_valid calendar (some v ∷ rest) = elim (is_valid_iana calendar (some v)) [
  | ok true ↦ ok v
  | ok false ↦ first_valid calendar rest
  | err e ↦ err e
]

unfoldable pub resolve_timezone :
    Calendar → Option String → Option String → Option String → Result String
unfolding is_valid_iana
resolve_timezone calendar call_value header_value env_value =
    first_valid calendar (call_value ∷ header_value ∷ env_value ∷ [])
