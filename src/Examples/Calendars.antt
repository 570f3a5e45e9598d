-- ===== src/Examples/Calendars.antt =====
-- A calendar whose every expression fires at each full hour.
use task_scheduler_mcp.Examples.{at}
use task_scheduler_mcp.Store.{hour}
use task_scheduler_mcp.Materializer.{zone_found, Calendar}
use task_scheduler_mcp.Common.{◌+◌, ◌*◌, ◌/◌, true, some}

abbrev pub hourly : Calendar
hourly = record {
  get_next = λ expr tz start. some (at ((start / hour + 1) * hour));
  is_valid = λ expr. true;
  zone = λ key. zone_found;
}
