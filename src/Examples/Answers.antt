-- ===== src/Examples/Answers.antt =====
-- The theorems on the answers of the handlers, applied.
use task_scheduler_mcp.Examples.{sample}
use task_scheduler_mcp.Mcp.Handlers.Scope.{handle_task_status-own_rows, own_rows}
use task_scheduler_mcp.Mcp.Handlers.{handle_task_status, ListArguments}
use task_scheduler_mcp.Jobs.Create.{IsoTime}
use task_scheduler_mcp.Mcp.TaskCreate.{absent, integer}
use task_scheduler_mcp.Common.{String, ◌≡◌, true, Option, none, some}

abbrev from_iso : String → Option IsoTime
from_iso s = none

abbrev arguments : ListArguments
arguments = record {
  page = absent;
  page_size = integer 2;
  status = some "scheduled";
  created_at_from = none;
  created_at_to = none;
}

handle_task_status-own_rows_example :
    handle_task_status "ann" (integer 1) true (own_rows "ann" sample)
    ≡ handle_task_status "ann" (integer 1) true sample
handle_task_status-own_rows_example = handle_task_status-own_rows "ann" (integer 1) true sample
