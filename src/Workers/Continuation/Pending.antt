-- ===== src/Workers/Continuation/Pending.antt =====
-- The events that the consumer has still to process, as lists.
use task_scheduler_mcp.Common.{
  take-fits, length-order_by, ℕ, zero, suc, ◌≤◌, ◌≡◌, refl, ◌∙◌, inl, inr, Bool, true, false, not,
  ◌&&◌, List, [], ◌∷◌, arith, leb, ◌==◌, ==-self, Bool-cases, length, select, update, exists, count,
  All, order_by, All-map, length-select,
}
use task_scheduler_mcp.Workers.Continuation.{pending_events, stamp, event_of, is_terminal_event}
use task_scheduler_mcp.Store.{Db, RunEvent, is_none}

-- An event that the next tick would take.
abbrev pub is_pending : RunEvent → Bool
is_pending e = is_terminal_event e.event_type && is_none e.processed

-- No pending event has an id that the test admits.
abbrev pub IsQuiet : (ℕ → Bool) → Db → Type 0
IsQuiet p db = exists (λ (e : RunEvent). is_pending e && p e.event_id) db.events ≡ false

pub quiet-rest :
    (p : ℕ → Bool) (e : RunEvent) (es : List RunEvent)
    → exists (λ (e : RunEvent). is_pending e && p e.event_id) (e ∷ es) ≡ false
    → exists (λ (e : RunEvent). is_pending e && p e.event_id) es ≡ false
quiet-rest p e es q = ground arith

pub stamp-quiet :
    (p : ℕ → Bool) (now event_id : ℕ) (events : List RunEvent)
    → exists (λ (e : RunEvent). is_pending e && p e.event_id) events ≡ false
    → exists
        (λ (e : RunEvent). is_pending e && p e.event_id)
        (update (event_of event_id) (stamp now) events)
      ≡ false
stamp-quiet p now event_id [] q = refl
stamp-quiet p now event_id (e ∷ es) q =
    ground (arith, stamp-quiet p now event_id es (quiet-rest p e es q))

-- A stamped event is no longer pending.
pub stamp-drains :
    (now event_id : ℕ) (events : List RunEvent)
    → exists
        (λ (e : RunEvent). is_pending e && (e.event_id == event_id))
        (update (event_of event_id) (stamp now) events)
      ≡ false
stamp-drains now event_id [] = refl
stamp-drains now event_id (e ∷ es) = ground (arith, stamp-drains now event_id es)

abbrev pub pending_of : Db → List RunEvent
pending_of db =
    order_by (λ (a b : RunEvent). leb a.event_id b.event_id) (select is_pending db.events)

-- A batch that is large enough has every pending event.
pub pending_events-all :
    (batch_size : ℕ) (db : Db)
    → count is_pending db.events ≤ batch_size
    → pending_events batch_size db ≡ pending_of db
unfolding pending_events
pending_events-all batch_size db fits = take-fits batch_size (pending_of db) (
    omega (
      arith,
      length-order_by (λ (a b : RunEvent). leb a.event_id b.event_id) (select is_pending db.events),
      length-select is_pending db.events,
    ))

abbrev pub Taken : List RunEvent → RunEvent → Type 0
Taken es e = is_pending e ≡ true → exists (event_of e.event_id) (select is_pending es) ≡ true

Taken-more : (e x : RunEvent) (es : List RunEvent) → Taken es x → Taken (e ∷ es) x
Taken-more e x es t own = elim (Bool-cases (is_pending e)) [
  | inl first ↦ rw first (ground (arith, t own))
  | inr other ↦ rw other (t own)
]

pub select-Taken : (es : List RunEvent) → All (Taken es) es
select-Taken [] = tt
select-Taken (e ∷ es) = (
  λ own. rw (own, ==-self e.event_id) refl,
  All-map es (λ x t. Taken-more e x es t) (select-Taken es),
)

pub none-missed :
    (p : ℕ → Bool) (es : List RunEvent)
    → All (λ (e : RunEvent). is_pending e ≡ true → p e.event_id ≡ true) es
    → exists (λ (e : RunEvent). is_pending e && not (p e.event_id)) es ≡ false
none-missed p [] h = refl
none-missed p (e ∷ es) h = elim (Bool-cases (is_pending e)) [
  | inl own ↦ rw (own, h.0 own) (none-missed p es h.1)
  | inr other ↦ rw other (none-missed p es h.1)
]

-- An event that is still pending has no stamped namesake.
none-taken :
    (e : RunEvent) (es taken : List RunEvent)
    → is_pending e ≡ true
    → All
        (λ (x : RunEvent).
          exists (λ (e : RunEvent). is_pending e && (e.event_id == x.event_id)) (e ∷ es) ≡ false)
        taken
    → exists (event_of e.event_id) taken ≡ false
none-taken e es [] own h = refl
none-taken e es (x ∷ taken) own h =
    let rest = none-taken e es taken own h.1 in let first = h.0 in ground (arith, own, first, rest)

pub none-left :
    (taken es : List RunEvent)
    → All
        (λ (x : RunEvent).
          exists (λ (e : RunEvent). is_pending e && (e.event_id == x.event_id)) es ≡ false)
        taken
    → exists (λ (e : RunEvent). is_pending e && not (exists (event_of e.event_id) taken)) es ≡ false
    → exists is_pending es ≡ false
none-left taken [] stamped others = refl
none-left taken (e ∷ es) stamped others = elim (Bool-cases (is_pending e)) [
  | inl own ↦
      let none_taken = none-taken e es taken own stamped in
      absurd (cc (rw (own, none_taken) at others))
  | inr other ↦ rw other (
      none-left taken es (All-map taken (λ x h. quiet-rest (λ i. i == x.event_id) e es h) stamped)
        (rw other at others))
]

select-none : (es : List RunEvent) → exists is_pending es ≡ false → select is_pending es ≡ []
select-none [] h = refl
select-none (e ∷ es) h = elim (Bool-cases (is_pending e)) [
  | inl own ↦ absurd (cc (rw own at h))
  | inr other ↦ rw other (select-none es (rw other at h))
]

pub pending_events-none :
    (batch_size : ℕ) (db : Db)
    → exists is_pending db.events ≡ false
    → pending_events batch_size db ≡ []
unfolding pending_events
pending_events-none zero db quiet = refl
pending_events-none (suc n) db quiet = rw (pending_events, select-none db.events quiet) refl

pub length-pending_of : (db : Db) → length (pending_of db) ≡ count is_pending db.events
length-pending_of db =
    length-order_by (λ (a b : RunEvent). leb a.event_id b.event_id) (select is_pending db.events)
    ∙ length-select is_pending db.events
