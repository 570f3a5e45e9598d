-- ===== src/Actions/SlackPost/Retries.antt =====
-- Which answers of Slack are tried again.
use task_scheduler_mcp.Actions.SlackPost.{
  SlackResponse, unreached, answered, SlackBody, not_json, confirmed, rejected, SlackResult, posted,
  by_body, failed, missing, raised, classify_response, error_code, non_retryable_slack_errors,
}
use task_scheduler_mcp.Mcp.StatusMapping.{mem_text}
use task_scheduler_mcp.Common.{
  ℕ, ◌≤◌, ◌<◌, ◌≡◌, refl, inl, inr, Bool, true, false, not, ◌&&◌, ◌||◌, arith, ltb, leb, ◌==◌,
  Bool-cases,
}

-- Worth another attempt: no answer, too many requests, an error of the server, or a refusal whose code
-- is not listed as permanent.
abbrev is_unlisted : SlackBody → Bool
is_unlisted not_json = false
is_unlisted (confirmed channel ts) = false
is_unlisted (rejected error) = not (mem_text (error_code error) non_retryable_slack_errors)

abbrev is_transient : SlackResponse → Bool
is_transient unreached = true
is_transient (answered status_code body) =
    (status_code == 429)
    || (leb 500 status_code || ((leb 200 status_code && ltb status_code 300) && is_unlisted body))

abbrev pub Tells : SlackResponse → SlackResult → Type 0
Tells response (posted channel ts) =
    (status_code : ℕ) × (response ≡ answered status_code (confirmed channel ts))
    × (200 ≤ status_code)
    × (status_code < 300)
Tells response (failed retryable) = retryable ≡ is_transient response
Tells response missing = ⊥
Tells response (raised e) = ⊥

body-Tells :
    (status_code : ℕ) (body : SlackBody)
    → (status_code == 429) ≡ false
    → leb 500 status_code ≡ false
    → (leb 200 status_code && ltb status_code 300) ≡ true
    → Tells (answered status_code body) (by_body body)
body-Tells status_code not_json few up success = rw (few, up, success) refl
body-Tells status_code (confirmed channel ts) few up success =
    (status_code, refl, ground (arith, success), ground (arith, success))
body-Tells status_code (rejected error) few up success = rw (few, up, success) refl

-- A message is posted only on a confirmation with a status of success, and a failure is retryable
-- exactly where there was no answer, too many requests, an error of the server, or a refusal with a
-- code that is not listed as permanent.
pub classify_response-Tells :
    (response : SlackResponse) → Tells response (classify_response response)
unfolding classify_response
classify_response-Tells unreached = refl
classify_response-Tells (answered status_code body) = elim (Bool-cases (status_code == 429)) [
  | inl many ↦ rw many (rw many refl)
  | inr few ↦ elim (Bool-cases (leb 500 status_code)) [
    | inl broken ↦ rw (few, broken) (rw (few, broken) refl)
    | inr up ↦ elim (Bool-cases (leb 200 status_code && ltb status_code 300)) [
      | inl success ↦ rw (few, up, success) (body-Tells status_code body few up success)
      | inr refused ↦ rw (few, up, refused) (rw (few, up, refused) refl)
    ]
  ]
]
