-- ===== src/Actions/EmailSend/Once.antt =====
-- A run's mail is sent once.
use task_scheduler_mcp.Actions.SendDedup.Once.{
  begin_send-mark_sent, run_calls, marks_key, Call, begun,
}
use task_scheduler_mcp.Connections.Preflight.{proceeds, OauthCheck}
use task_scheduler_mcp.Store.Session.{connection_miss, Result}
use task_scheduler_mcp.Actions.EmailSend.{
  execute, build_body, token_for, EmailSendParams, ok, by_check, err, send_via_gmail, by_token,
  unreached, answered, post, Response, by_decision, Executed, classify, delivered, World,
  EmailResult,
}
use task_scheduler_mcp.Actions.SendDedup.{
  skip, begin_send, is_skip, SendGate, mark_sent, intent_of, SendIntent,
}
use task_scheduler_mcp.Common.{
  ℕ, String, ◌≡◌, refl, ap, ◌⊎◌, inl, inr, Bool, true, false, not, ◌&&◌, Option, none, List, str_eq,
  ltb, leb, ◌==◌, Bool-cases, Option-cases, exists,
}

-- What a delivery leaves: the intent of the key, marked with the provider's message id.
abbrev Marks : ℕ → String → Option String → List SendIntent → Type 0
Marks now key id intents =
    (t : List SendIntent) × (exists (intent_of key) t ≡ true) × (intents ≡ mark_sent now key id t)

abbrev is_delivered : EmailResult → Bool
is_delivered (delivered id deduped) = true
is_delivered _ = false

id_of : EmailResult → Option String
id_of (delivered id deduped) = id
id_of _ = none

module _ (world : World) (key : String) (id : Option String) where
  classify-marks :
      (response : Response) (t : List SendIntent)
      → (classify world.now key response t).0 ≡ delivered id false
      → (classify world.now key response t).1 ≡ mark_sent world.now key id t
  unfolding classify id_of
  classify-marks unreached t h = absurd (cc h)
  classify-marks (answered code message_id) t h = elim (Bool-cases (code == 401)) [
    | inl a ↦ absurd (cc (rw (classify, a) at h))
    | inr a ↦ elim (Bool-cases (code == 403)) [
      | inl b ↦ absurd (cc (rw (classify, a, b) at h))
      | inr b ↦ elim (Bool-cases (code == 429)) [
        | inl c ↦ absurd (cc (rw (classify, a, b, c) at h))
        | inr c ↦ elim (Bool-cases (leb 500 code)) [
          | inl d ↦ absurd (cc (rw (classify, a, b, c, d) at h))
          | inr d ↦ elim (Bool-cases (not (leb 200 code && ltb code 300))) [
            | inl e ↦ absurd (cc (rw (classify, a, b, c, d, e) at h))
            | inr e ↦
                let same : message_id ≡ id = ap id_of (rw (classify, a, b, c, d, e) at h) in
                rw (classify, a, b, c, d, e, same)
          ]
        ]
      ]
    ]
  ]

  -- An execution that delivered has marked the key.
  abbrev MarksKey : Executed → Type 0
  MarksKey x = x.result ≡ delivered id false → Marks world.now key id x.intents

  by_decision-marks :
      (gate : SendGate) (t : List SendIntent)
      → exists (intent_of key) t ≡ true
      → MarksKey (by_decision world key (gate, t))
  unfolding by_decision post
  by_decision-marks gate t there h = elim (Bool-cases (is_skip gate.decision)) [
    | inl skipped ↦ absurd (cc (rw skipped at h))
    | inr goes ↦
        let same : (post world key t).intents ≡ mark_sent world.now key id t =
          classify-marks world.response t (rw goes at h) in
        (t, there, rw goes same)
  ]

  by_token-marks :
      (run_id : ℕ) (token : Result String) (intents : List SendIntent)
      → MarksKey (by_token world key run_id token intents)
  unfolding by_token
  by_token-marks run_id (err connection_miss) intents h = absurd (cc h)
  by_token-marks run_id (err e) intents h = absurd (cc h)
  by_token-marks run_id (ok token) intents h =
      let gate = begin_send world.now key run_id intents in
      by_decision-marks gate.0 gate.1 (begun world.now run_id key intents) h

  execute-marks :
      (run_id : ℕ) (user_id : String) (params : EmailSendParams) (intents : List SendIntent)
      → MarksKey (execute world key run_id user_id params intents)
  unfolding execute send_via_gmail by_check
  execute-marks run_id user_id params intents h =
      elim (Option-cases (build_body world params user_id)) [
        | inl no_body ↦ absurd (cc (rw (execute, no_body) at h))
        | inr (body, built) ↦ elim (Bool-cases (str_eq user_id "")) [
          | inl nobody ↦ absurd (cc (rw (execute, built, send_via_gmail, nobody) at h))
          | inr user ↦
              rw (execute, built, send_via_gmail, user)
                (checked _ (rw (execute, built, send_via_gmail, user) at h))
        ]
      ]
    where
      checked : (c : OauthCheck) → MarksKey (by_check world key run_id user_id c intents)
      checked OauthCheck.missing_connection h = absurd (cc h)
      checked proceeds h = by_token-marks run_id (token_for world user_id) intents h

  -- No call of the provider, no change of the intents, and no second delivery.
  abbrev pub IsQuiet : List SendIntent → Executed → Type 0
  IsQuiet table x =
      (x.posts ≡ 0)
      × (x.intents ≡ table)
      × ((x.result ≡ delivered id true) ⊎ (is_delivered x.result ≡ false))

  module _ (run_id : ℕ) (user_id : String) (params : EmailSendParams) (table : List SendIntent)
      (skips : begin_send world.now key run_id table
        ≡ (record { decision = skip; provider_message_id = id }, table)) where
    by_token-IsQuiet :
        (token : Result String) → IsQuiet table (by_token world key run_id token table)
    unfolding by_token by_decision
    by_token-IsQuiet (err connection_miss) = (refl, refl, inr refl)
    by_token-IsQuiet (err e) = (refl, refl, inr refl)
    by_token-IsQuiet (ok token) = rw (by_token, skips) (refl, refl, inl refl)

    by_check-IsQuiet : (c : OauthCheck) → IsQuiet table (by_check world key run_id user_id c table)
    unfolding by_check
    by_check-IsQuiet OauthCheck.missing_connection = (refl, refl, inr refl)
    by_check-IsQuiet proceeds = by_token-IsQuiet (token_for world user_id)

    execute-IsQuiet : IsQuiet table (execute world key run_id user_id params table)
    unfolding execute send_via_gmail
    execute-IsQuiet = elim (Option-cases (build_body world params user_id)) [
      | inl no_body ↦ rw (execute, no_body) (refl, refl, inr refl)
      | inr (body, built) ↦ elim (Bool-cases (str_eq user_id "")) [
        | inl nobody ↦ rw (execute, built, send_via_gmail, nobody) (refl, refl, inr refl)
        | inr user ↦ rw (execute, built, send_via_gmail, user) (by_check-IsQuiet _)
      ]
    ]

-- Once an execution of email_send has delivered a run's mail, every later execution for the run,
-- whatever the provider, the connections and the upstream result are by then, makes no request to
-- the provider, leaves the intents as they are, and answers either the first delivery's message id
-- or a failure before the send; calls for other keys may come between, and begins of the key.
pub execute-once :
    (first again : World) (key : String) (run_id : ℕ) (user_id : String) (params : EmailSendParams)
    (id : Option String) (cs : List Call) (intents : List SendIntent)
    → (execute first key run_id user_id params intents).result ≡ delivered id false
    → exists (marks_key key) cs ≡ false
    → let table = run_calls cs (execute first key run_id user_id params intents).intents in
      IsQuiet again key id table (execute again key run_id user_id params table)
execute-once first again key run_id user_id params id cs intents h others =
    let marked = execute-marks first key id run_id user_id params intents h in
    rw marked.2 (
      execute-IsQuiet again key id run_id user_id params
        (run_calls cs (mark_sent first.now key id marked.0))
        (begin_send-mark_sent first.now again.now run_id key id cs marked.0 marked.1 others))
