-- ===== src/Overload/Limiter/Capacity.antt =====
-- The limiter against a specification that has the set of the requests inside and no counter.
use task_scheduler_mcp.Overload.Limiter.{
  leave, leaves, enter, enters, run, step, remove, Traffic, Event,
}
use task_scheduler_mcp.Common.{
  ℕ, ◌+◌, ◌≤◌, ◌≡◌, refl, inl, inr, Bool, true, false, List, [], ◌∷◌, arith, ltb, leb, ◌==◌,
  if◌then◌else◌, Bool-cases, length, exists,
}

-- A request goes in while there is room.
abbrev spec_step : ℕ → Event → List ℕ → Bool × List ℕ
spec_step limit (enters request) inside =
    if ltb (length inside) limit then (true, request ∷ inside) else (false, inside)
spec_step limit (leaves request) inside =
    if exists (λ x. x == request) inside then (true, remove request inside) else (false, inside)

abbrev pub spec_run : ℕ → List Event → List ℕ → List Bool × List ℕ
spec_run limit [] inside = ([], inside)
spec_run limit (e ∷ es) inside =
    let answered = spec_step limit e inside in
    let rest = spec_run limit es answered.1 in (answered.0 ∷ rest.0, rest.1)

-- The counter counts the requests inside, and they fit.
pub record Counts (limit : ℕ) (t : Traffic) : Type 0 where
  pub same_limit : t.limiter.limit ≡ limit
  pub counted : t.limiter.inflight ≡ length t.inside
  pub fits : length t.inside ≤ limit

length-remove :
    (r : ℕ) (xs : List ℕ) → exists (λ x. x == r) xs ≡ true → length (remove r xs) + 1 ≡ length xs
length-remove r [] h = absurd (cc h)
length-remove r (x ∷ xs) h = elim (Bool-cases (x == r)) [
  | inl own ↦ rw own (omega arith)
  | inr other ↦ rw other (omega (arith, length-remove r xs (rw other at h)))
]

-- One step of the limiter is one step of the specification.
step-Counts :
    (limit : ℕ) (e : Event) (t : Traffic)
    → Counts limit t
    → Counts limit (step e t).1
      × ((step e t).0 ≡ (spec_step limit e t.inside).0)
      × ((step e t).1.inside ≡ (spec_step limit e t.inside).1)
unfolding step enter leave
step-Counts limit (enters request) t c = elim (Bool-cases (ltb (length t.inside) limit)) [
  | inl room ↦
      let below : leb t.limiter.limit t.limiter.inflight ≡ false =
        ground (arith, room, c.same_limit, c.counted) in
      rw (room, enter, below)
        (
          record {
            same_limit = c.same_limit;
            counted = ground (arith, c.counted);
            fits = ground (arith, room);
          },
          refl,
          refl,
        )
  | inr full ↦
      let above : leb t.limiter.limit t.limiter.inflight ≡ true =
        ground (arith, full, c.same_limit, c.counted) in
      rw (full, enter, above) (c, refl, refl)
]
step-Counts limit (leaves request) t c = elim (Bool-cases (exists (λ x. x == request) t.inside)) [
  | inl there ↦ rw there (
    record {
      same_limit = c.same_limit;
      counted = omega (arith, c.counted, length-remove request t.inside there);
      fits = omega (arith, c.fits, length-remove request t.inside there);
    },
    refl,
    refl,
  )
  | inr missing ↦ rw missing (c, refl, refl)
]

-- The concurrency limiter refines a specification that has the set of the requests inside and no
-- counter: over any sequence of arrivals and departures it lets in exactly the requests that find
-- fewer than the limit inside, and its counter is always the number of the requests inside, at most
-- the limit.
pub run-spec_run :
    (limit : ℕ) (events : List Event) (t : Traffic)
    → Counts limit t
    → Counts limit (run events t).1 × ((run events t).0 ≡ (spec_run limit events t.inside).0)
unfolding run
run-spec_run limit [] t c = (c, refl)
run-spec_run limit (e ∷ es) t c =
    let one = step-Counts limit e t c in
    let rest = run-spec_run limit es (step e t).1 one.0 in (rest.0, rw (one.1, rest.1, one.2))
