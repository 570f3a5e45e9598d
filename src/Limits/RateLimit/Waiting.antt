-- ===== src/Limits/RateLimit/Waiting.antt =====
-- What a rejection by app/ratelimit/checker.py says about waiting.
use task_scheduler_mcp.Limits.Containment.{reject}
use task_scheduler_mcp.Store.Session.{ok, Result}
use task_scheduler_mcp.Store.{second, hour, Job, minute}
use task_scheduler_mcp.Limits.RateLimit.{
  reject, RateLimits, RateLimitDecision, check_rate_limit, check_window, daily, burst, RateReason,
  in_window, oldest, seconds_left,
}
use task_scheduler_mcp.Common.{
  sym, ◌∙◌, length, false, min, ℕ, ◌+◌, ◌*◌, ◌≤◌, ◌<◌, String, ◌≡◌, ap, inl, inr, Bool, true, ◌&&◌,
  Option, none, some, List, [], ◌∷◌, arith, leb, ◌==◌, Bool-cases, Option-cases, select, exists,
  count, All,
}

abbrev window_of : RateReason → ℕ
window_of burst = minute
window_of daily = 24 * hour

or_zero : Option ℕ → ℕ
or_zero none = 0
or_zero (some t) = t

oldest_there :
    (p : Job → Bool) (jobs : List Job) (t : ℕ)
    → oldest (select p jobs) ≡ some t
    → exists (λ j. p j && (j.created_at == t)) jobs ≡ true
unfolding oldest or_zero
oldest_there p [] t h = absurd (cc h)
oldest_there p (j ∷ js) t h = elim (Bool-cases (p j)) [
  | inr left ↦ rw left (oldest_there p js t (rw left at h))
  | inl kept ↦
      let h' = rw kept at h in
      elim (Option-cases (oldest (select p js))) [
        | inl alone ↦
            let same : j.created_at ≡ t = ap or_zero (rw alone at h') in ground (arith, kept, same)
        | inr (s, e) ↦
            let least : min j.created_at s ≡ t = ap or_zero (rw e at h') in
            elim (Bool-cases (leb j.created_at s)) [
              | inl first ↦
                  let same : j.created_at ≡ t = ground (arith, first, least) in
                  ground (arith, kept, same)
              | inr later ↦
                  let same : s ≡ t = ground (arith, later, least) in
                  let rest : exists (λ j'. p j' && (j'.created_at == t)) js ≡ true =
                    rw same at (oldest_there p js s e) in
                  ground (arith, rest)
            ]
      ]
]

module _ (user_id : String) (now later window t : ℕ) where
  abbrev is_oldest : Job → Bool
  is_oldest j = in_window user_id now window j && (j.created_at == t)

  window_le :
      (jobs : List Job)
      → now ≤ later
      → count (in_window user_id later window) jobs ≤ count (in_window user_id now window) jobs
  window_le [] le = omega arith
  window_le (j ∷ js) le = ground (arith, window_le js le)

  window_lt :
      (jobs : List Job)
      → now ≤ later
      → t + window ≤ later
      → exists is_oldest jobs ≡ true
      → count (in_window user_id later window) jobs < count (in_window user_id now window) jobs
  window_lt [] le out h = absurd (cc h)
  window_lt (j ∷ js) le out h = ground (arith, window_le js le, window_lt js le out)

  bounds :
      (jobs : List Job)
      → All (λ (j : Job). j.created_at ≤ now) jobs
      → exists is_oldest jobs ≡ true
      → (now < t + window) × (t ≤ now)
  bounds [] past h = absurd (cc h)
  bounds (j ∷ js) past h = ground (arith, past.0, bounds js past.1)

-- What a rejection by one window says.
abbrev pub Waits : String → List Job → ℕ → RateReason → ℕ → Type 0
Waits user_id jobs now reason s =
    (1 ≤ s)
    × (s * second ≤ window_of reason)
    × (count (in_window user_id (now + s * second) (window_of reason)) jobs
        < count (in_window user_id now (window_of reason)) jobs)

seconds_left-bounds :
    (now t : ℕ) (reason : RateReason)
    → (now < t + window_of reason) × (t ≤ now)
    → let s = seconds_left now (window_of reason) t in
      (1 ≤ s) × (s * second ≤ window_of reason) × (t + window_of reason ≤ now + s * second)
seconds_left-bounds now t burst h = ground (arith, h.0, h.1)
seconds_left-bounds now t daily h = ground (arith, h.0, h.1)

seconds_left-Waits :
    (user_id : String) (jobs : List Job) (now t : ℕ) (reason : RateReason)
    → All (λ (j : Job). j.created_at ≤ now) jobs
    → oldest (select (in_window user_id now (window_of reason)) jobs) ≡ some t
    → Waits user_id jobs now reason (seconds_left now (window_of reason) t)
seconds_left-Waits user_id jobs now t reason past found =
    let window = window_of reason in
    let there = oldest_there (in_window user_id now window) jobs t found in
    let later = now + seconds_left now window t * second in
    let near =
      seconds_left-bounds now t reason (bounds user_id now later window t jobs past there) in
    (near.0, near.1, window_lt user_id now later window t jobs (omega arith) near.2 there)

-- The reason and the seconds of a rejection.
parts : Option (Result RateLimitDecision) → RateReason × ℕ
parts (some (ok (reject reason s))) = (reason, s)
parts _ = (burst, 0)

fails : Option (Result RateLimitDecision) → Bool
fails (some (ok d)) = false
fails _ = true

check_window-Waits :
    (user_id : String) (jobs : List Job) (now limit s : ℕ) (r reason : RateReason)
    → All (λ (j : Job). j.created_at ≤ now) jobs
    → check_window r user_id now (window_of r) limit jobs ≡ some (ok (reject reason s))
    → Waits user_id jobs now reason s
unfolding check_window parts fails
check_window-Waits user_id jobs now limit s r reason past h =
    let rows = select (in_window user_id now (window_of r)) jobs in
    elim (Bool-cases (leb limit (length rows))) [
      | inr below ↦ absurd (cc (ap fails (rw below at h)))
      | inl full ↦
          let full_h = rw full at h in
          elim (Option-cases (oldest rows)) [
            | inl empty ↦ absurd (cc (ap fails (rw empty at full_h)))
            | inr (t, found) ↦
                let e : (r, seconds_left now (window_of r) t) ≡ (reason, s) =
                  ap parts (rw found at full_h) in
                rw (sym (ap (λ x. x.0) e), sym (ap (λ x. x.1) e))
                  (seconds_left-Waits user_id jobs now t r past found)
          ]
    ]

-- A rejected caller is told to wait between one second and the length of the window that is full, and
-- a caller who creates nothing meanwhile has fewer jobs in that window then, where no job was created
-- after now.
pub check_rate_limit-Waits :
    (user_id : String) (jobs : List Job) (limits : RateLimits) (now s : ℕ) (reason : RateReason)
    → All (λ (j : Job). j.created_at ≤ now) jobs
    → check_rate_limit user_id jobs limits now ≡ ok (reject reason s)
    → Waits user_id jobs now reason s
unfolding check_rate_limit
check_rate_limit-Waits user_id jobs limits now s reason past h =
    elim (Option-cases (check_window burst user_id now minute limits.burst jobs)) [
      | inr (d, full) ↦
          check_window-Waits user_id jobs now limits.burst s burst reason past
            (full ∙ ap some (rw (full, check_rate_limit) at h))
      | inl room ↦
          elim (Option-cases (check_window daily user_id now (24 * hour) limits.daily jobs)) [
            | inr (d, full) ↦
                check_window-Waits user_id jobs now limits.daily s daily reason past
                  (full ∙ ap some (rw (room, full, check_rate_limit) at h))
            | inl space ↦ absurd (cc (rw (room, space, check_rate_limit) at h))
          ]
    ]
