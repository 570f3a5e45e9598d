-- ===== src/Actions/CalendarDigest.antt =====
-- app/actions/calendar_digest_ics.py. The answer to the request is the parameter `get`; the components
-- that icalendar reads from a body are `from_ical`. `today` is the midnight of the day.
use task_scheduler_mcp.Ics.{Component, CalendarEvent, parse_events}
use task_scheduler_mcp.Secrets.Json.{Value}
use task_scheduler_mcp.Secrets.Resolver.{Env, resolve, build_effective_whitelist}
use task_scheduler_mcp.Store.{hour}
use task_scheduler_mcp.Common.{
  ℕ, ◌+◌, ◌-◌, ◌*◌, String, Bool, true, false, not, ◌&&◌, ◌||◌, Option, none, some, List, ltb, leb,
  ◌==◌, if◌then◌else◌,
}

pub record CalendarParams : Type 0 where
  pub ics_url : Value
  pub date_range_days : ℕ
  pub title_contains : Option String

pub data CalendarResponse : Type 0 where
  unreached : CalendarResponse
  answered : (status_code : ℕ) → (text : String) → CalendarResponse
  -- an exception that is neither of the two, such as httpx.InvalidURL
  raises : CalendarResponse

pub data CalendarResult : Type 0 where
  digest : List CalendarEvent → CalendarResult
  failed : (retryable : Bool) → CalendarResult
  -- `execute` raises
  raised : CalendarResult

pub record CalendarWorld : Type 0 where
  pub env : Env
  pub get : (url : Value) → CalendarResponse
  pub from_ical : String → Option (List Component)
  pub lower : String → List ℕ
  pub today : ℕ

-- `today + timedelta(days=date_range_days - 1)`
abbrev end_date : ℕ → ℕ → ℕ
end_date today days = today + days * (24 * hour) - 24 * hour

abbrev by_events : Option (List CalendarEvent) → CalendarResult
by_events none = failed false
by_events (some events) = digest events

abbrev pub by_response : CalendarWorld → CalendarParams → CalendarResponse → CalendarResult
unfolding parse_events
by_response world params unreached = failed true
by_response world params raises = raised
by_response world params (answered status_code text) =
    if (status_code == 401) || (status_code == 403)
    then failed false
    else if status_code == 404
    then failed false
    else if leb 500 status_code
    then failed true
    else if not (leb 200 status_code && ltb status_code 300)
    then failed false
    else by_events (
        parse_events world.lower (world.from_ical text) world.today
          (end_date world.today params.date_range_days) params.title_contains)

abbrev by_url : CalendarWorld → CalendarParams → Option Value → CalendarResult
unfolding by_response
by_url world params none = failed false
by_url world params (some url) = by_response world params (world.get url)

unfoldable pub execute : CalendarWorld → CalendarParams → CalendarResult
unfolding by_url resolve build_effective_whitelist
execute world params =
    by_url world params (resolve world.env (build_effective_whitelist world.env) params.ics_url)
