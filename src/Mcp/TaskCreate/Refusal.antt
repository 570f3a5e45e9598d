-- ===== src/Mcp/TaskCreate/Refusal.antt =====
-- A literal secret in the parameters of an action.
use task_scheduler_mcp.Secrets.Walk.{detect_literal_secret-texts_of, texts_of, first_secret}
use task_scheduler_mcp.Store.{Db}
use task_scheduler_mcp.Mcp.TaskCreate.{TaskArguments, Server, handle_task_create}
use task_scheduler_mcp.Mcp.Envelope.{failure, error, Code}
use task_scheduler_mcp.Common.{ℕ, String, ◌≡◌, ◌∙◌, Option, some}

-- A task.create whose action_params have, at any depth, a text in which a secret pattern is found
-- is refused as USER_INPUT and changes nothing, whatever its other arguments and the queue depth.
pub handle_task_create-secret :
    (server : Server) (draw now stamp depth : ℕ) (user_id : String) (tz_header : Option String)
    (arguments : TaskArguments) (db : Db) (prefix : String)
    → first_secret server.alnum (texts_of arguments.action_params) ≡ some prefix
    → handle_task_create server draw now stamp depth user_id tz_header arguments db
      ≡ (failure (error Code.user_input (some "action_params")), db)
unfolding handle_task_create
handle_task_create-secret server draw now stamp depth user_id tz_header arguments db prefix h =
    let found = detect_literal_secret-texts_of server.alnum arguments.action_params ∙ h in rw found
