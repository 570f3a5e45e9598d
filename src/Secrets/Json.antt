-- ===== src/Secrets/Json.antt =====
-- The values of a JSON document, as `isinstance` tells them apart in app/secrets/.
use task_scheduler_mcp.Common.{String}

mutual
  pub data Value : Type 0 where
    string : (s : String) → Value
    array : Values → Value
    object : Fields → Value
    -- a number, a Boolean or null, by its text
    scalar : (s : String) → Value

  pub data Values : Type 0 where
    end : Values
    item : Value → Values → Values

  pub data Fields : Type 0 where
    empty : Fields
    field : (key : String) → Value → Fields → Fields
