-- ===== src/Examples/Sends.antt =====
-- The theorems on the deduplication of sends, applied.
use task_scheduler_mcp.Actions.SendDedup.Once.{begin_send-mark_sent, marks, begins, run_calls, Call}
use task_scheduler_mcp.Actions.SendDedup.{begin_send, mark_sent, SendIntent, attempting, skip}
use task_scheduler_mcp.Common.{◌≡◌, refl, none, some, List, [], ◌∷◌}

abbrev intents : List SendIntent
intents =
    record {
      idempotency_key = "email_send:7";
      run_id = 7;
      status = attempting;
      provider_message_id = none;
      created_at = 10;
      updated_at = 10;
    }
    ∷ []

abbrev between : List Call
between = begins 30 "email_send:8" 8 ∷ marks 31 "email_send:8" none ∷ []

begin_send-mark_sent_example :
    let table = run_calls between (mark_sent 20 "email_send:7" (some "m1") intents) in
    begin_send 40 "email_send:7" 7 table
    ≡ (record { decision = skip; provider_message_id = some "m1" }, table)
begin_send-mark_sent_example =
    begin_send-mark_sent 20 40 7 "email_send:7" (some "m1") between intents refl refl
