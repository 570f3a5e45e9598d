-- ===== src/Obs/Queue.antt =====
-- `_DroppingQueueHandler` of app/obs/logging.py: a bounded queue that drops its oldest record.
pub mod Newest
use task_scheduler_mcp.Common.{
  ℕ, ◌+◌, Bool, true, Option, none, some, List, [], ◌∷◌, ◌++◌, ltb, if◌then◌else◌, length, drop,
}

-- The queue, the oldest record first, whether the warning has been given, and how often it was written.
pub record LogQueue {ℓ} (A : Type ℓ) : Type ℓ where
  pub records : List A
  pub warned : Bool
  pub warnings : ℕ

module _ {ℓ} {A : Type ℓ} (maxsize : ℕ) where
  -- `queue.put_nowait`: `none` stands for queue.Full.
  abbrev put_nowait : A → List A → Option (List A)
  put_nowait r records = if ltb (length records) maxsize then some (records ++ r ∷ []) else none

  -- The warning fires once.
  abbrev pub warn : LogQueue A → LogQueue A
  warn q = if q.warned then q else record q { warned = true; warnings = q.warnings + 1 }

  -- The second attempt, on the queue without its oldest record; a failure discards the record.
  abbrev pub retry : A → LogQueue A → LogQueue A
  retry r q = elim (put_nowait r q.records) [
    | none ↦ q
    | some records ↦ record q { records = records }
  ]

  unfoldable pub enqueue : A → LogQueue A → LogQueue A
  enqueue r q = elim (put_nowait r q.records) [
    | some records ↦ record q { records = records }
    | none ↦ retry r (warn (record q { records = drop 1 q.records }))
  ]

  unfoldable pub enqueue_all : List A → LogQueue A → LogQueue A
  unfolding enqueue
  enqueue_all [] q = q
  enqueue_all (r ∷ rs) q = enqueue_all rs (enqueue r q)
