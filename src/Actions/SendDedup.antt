-- ===== src/Actions/SendDedup.antt =====
-- app/actions/send_dedup.py: the write-ahead intents of an external send. The key is the text that
-- `derive_idempotency_key` makes of the action's name and the run.
pub mod Once
use task_scheduler_mcp.Common.{
  ℕ, zero, suc, ◌+◌, ◌-◌, ◌*◌, ◌/◌, ◌%◌, ◌≤◌, ◌<◌, String, ◌≡◌, refl, ◌∙◌, ◌≢◌, ◌↔◌, ◌⊎◌, inl, inr,
  Bool, true, false, ◌&&◌, ◌||◌, Option, none, some, List, [], ◌∷◌, ◌++◌, str_eq, ◌==◌,
  if◌then◌else◌, head?, select, update, exists,
}

pub data IntentStatus : Type 0 where
  attempting sent : IntentStatus

-- A row of `send_intents`.
pub record SendIntent : Type 0 where
  pub idempotency_key : String
  pub run_id : ℕ
  pub status : IntentStatus
  pub provider_message_id : Option String
  pub created_at : ℕ
  pub updated_at : ℕ

pub data SendDecision : Type 0 where
  send resend skip : SendDecision

unfoldable pub decide_send : Option IntentStatus → SendDecision
decide_send none = send
decide_send (some sent) = skip
decide_send (some attempting) = resend

pub record SendGate : Type 0 where
  pub decision : SendDecision
  pub provider_message_id : Option String

abbrev pub intent_of : String → SendIntent → Bool
intent_of key i = str_eq i.idempotency_key key

abbrev pub is_skip : SendDecision → Bool
is_skip skip = true
is_skip _ = false

abbrev status_of : Option SendIntent → Option IntentStatus
status_of none = none
status_of (some i) = some i.status

abbrev message_of : Option SendIntent → Option String
message_of none = none
message_of (some i) = i.provider_message_id

-- The gate of an intent that is in the table already.
abbrev pub gate_of : Option SendIntent → SendGate
gate_of existing =
    let decision = decide_send (status_of existing) in
    record {
      decision = decision;
      provider_message_id = if is_skip decision then message_of existing else none;
    }

-- `INSERT … ON CONFLICT DO NOTHING`, and the committed row on a conflict.
unfoldable pub begin_send : ℕ → String → ℕ → List SendIntent → SendGate × List SendIntent
unfolding decide_send
begin_send now key run_id intents =
    if exists (intent_of key) intents
    then (gate_of (head? (select (intent_of key) intents)), intents)
    else (
      record { decision = send; provider_message_id = none },
      record {
        idempotency_key = key;
        run_id = run_id;
        status = attempting;
        provider_message_id = none;
        created_at = now;
        updated_at = now;
      }
          ∷ intents,
    )

unfoldable pub mark_sent : ℕ → String → Option String → List SendIntent → List SendIntent
mark_sent now key provider_message_id intents =
    update (intent_of key)
      (λ i. record i { status = sent; provider_message_id = provider_message_id; updated_at = now })
      intents
