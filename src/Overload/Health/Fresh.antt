-- ===== src/Overload/Health/Fresh.antt =====
-- How old a queue depth may be.
use task_scheduler_mcp.Mcp.StatusMapping.{lookup}
use task_scheduler_mcp.Overload.Health.{queue_depth_ttl, get_queue_depth, Cache}
use mathlib.Core.Path.{subst}
use task_scheduler_mcp.Common.{
  ℕ, ◌+◌, ◌-◌, ◌≤◌, ◌<◌, String, ◌≡◌, refl, ap, inl, inr, Option, none, some, [], ◌∷◌, arith,
  str_eq, eq_refl, ltb, Bool-cases, Option-cases, All,
}

-- The cache keeps no reading from the future.
abbrev IsPast : ℕ → Cache → Type 0
IsPast now cache = All (λ (e : String × (ℕ × ℕ)). e.1.1 ≤ now) cache

reading_of : Option (ℕ × ℕ) → ℕ × ℕ
reading_of none = (0, 0)
reading_of (some reading) = reading

found-IsPast :
    (now : ℕ) (queue_url : String) (cache : Cache) (e : ℕ × ℕ)
    → IsPast now cache
    → lookup queue_url cache ≡ some e
    → e.1 ≤ now
unfolding reading_of
found-IsPast now queue_url [] e past h = absurd (cc h)
found-IsPast now queue_url ((k, v) ∷ cache) e past h = elim (Bool-cases (str_eq k queue_url)) [
  | inl own ↦
      let same : v ≡ e = ap reading_of (rw own at h) in subst (λ (r : ℕ × ℕ). r.1 ≤ now) same past.0
  | inr other ↦ found-IsPast now queue_url cache e past.1 (rw other at h)
]

-- The depth is the cache's, as it is afterwards, and was measured less than 30 seconds ago.
abbrev IsFresh : ℕ → String → ℕ × Cache → Type 0
IsFresh now queue_url answered =
    IsPast now answered.1
    × ((ts : ℕ) × (lookup queue_url answered.1 ≡ some (answered.0, ts))
        × (ts ≤ now)
        × (now < ts + queue_depth_ttl))

-- A depth that is answered was measured less than 30 seconds ago, and the cache has it with the
-- instant of its measure, where it had no reading from the future.
get_queue_depth-IsFresh :
    (measure now : ℕ) (queue_url : String) (cache : Cache)
    → IsPast now cache
    → IsFresh now queue_url (get_queue_depth measure now queue_url cache)
unfolding get_queue_depth
get_queue_depth-IsFresh measure now queue_url cache past =
    let measured : IsFresh now queue_url (measure, (queue_url, (measure, now)) ∷ cache) =
      ((omega arith, past), (now, rw (eq_refl queue_url) refl, omega arith, omega arith)) in
    elim (Option-cases (lookup queue_url cache)) [
      | inl missing ↦ rw (get_queue_depth, missing) measured
      | inr ((depth, ts), found) ↦ elim (Bool-cases (ltb (now - ts) queue_depth_ttl)) [
        | inr stale ↦ rw (get_queue_depth, found, stale) measured
        | inl young ↦
            let before : ts ≤ now = found-IsPast now queue_url cache (depth, ts) past found in
            rw (get_queue_depth, found, young)
              (past, (ts, found, before, ground (arith, young, before)))
      ]
    ]
