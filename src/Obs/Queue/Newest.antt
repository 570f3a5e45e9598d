-- ===== src/Obs/Queue/Newest.antt =====
-- The records that the bounded queue keeps.
use mathlib.Core.List.{append-nil}
use task_scheduler_mcp.Obs.Queue.{LogQueue, warn, retry, enqueue, enqueue_all}
use task_scheduler_mcp.Common.{
  length-append, length-drop, ℕ, suc, ◌+◌, ◌-◌, ◌≤◌, ◌<◌, ◌≡◌, refl, sym, ap, ◌∙◌, inl, inr, Bool,
  true, false, ◌||◌, List, [], ◌∷◌, ◌++◌, arith, ltb, if◌then◌else◌, Bool-cases, length, drop,
}

-- The last records of a list, at most so many.
abbrev pub newest {ℓ} : {A : Type ℓ} → ℕ → List A → List A
newest n xs = drop (length xs - n) xs

module _ {ℓ} {A : Type ℓ} where
  append-rest : (xs : List A) (r : A) (rs : List A) → (xs ++ r ∷ []) ++ rs ≡ xs ++ (r ∷ rs)
  append-rest [] r rs = refl
  append-rest (x ∷ xs) r rs = ap (λ ys. x ∷ ys) (append-rest xs r rs)

  -- A full queue that is not empty loses its head.
  full-newest :
      (maxsize : ℕ) (xs rs : List A) (r : A)
      → 0 < maxsize
      → length xs ≡ maxsize
      → newest maxsize (drop 1 xs ++ (r ∷ rs)) ≡ newest maxsize (xs ++ (r ∷ rs))
  full-newest maxsize [] rs r pos full = absurd (omega arith)
  full-newest maxsize (x ∷ xs) rs r pos full =
      let longer : length (x ∷ (xs ++ (r ∷ rs))) - maxsize
          ≡ suc (length (xs ++ (r ∷ rs)) - maxsize) =
        omega (arith, length-append xs (r ∷ rs)) in
      rw longer refl

  warn_lem :
      (maxsize : ℕ) (records : List A) (warned : Bool) (warnings : ℕ)
      → warn maxsize (record { records = records; warned = warned; warnings = warnings }) ≡ record {
        records = records;
        warned = true;
        warnings = if warned then warnings else warnings + 1;
      }
  warn_lem maxsize records true warnings = refl
  warn_lem maxsize records false warnings = refl

  enqueue_room :
      (maxsize : ℕ) (r : A) (q : LogQueue A)
      → ltb (length q.records) maxsize ≡ true
      → enqueue maxsize r q ≡ record q { records = q.records ++ r ∷ [] }
  unfolding enqueue
  enqueue_room maxsize r q room = rw (enqueue, room) refl

  enqueue_full :
      (maxsize : ℕ) (r : A) (q : LogQueue A)
      → 0 < maxsize
      → length q.records ≡ maxsize
      → enqueue maxsize r q ≡ record q {
        records = drop 1 q.records ++ r ∷ [];
        warned = true;
        warnings = if q.warned then q.warnings else q.warnings + 1;
      }
  unfolding enqueue
  enqueue_full maxsize r q pos full =
      let closed : ltb (length q.records) maxsize ≡ false = ground (arith, full) in
      let open_again : ltb (length (drop 1 q.records)) maxsize ≡ true =
        ground (arith, full, length-drop 1 q.records) in
      rw (enqueue, closed)
        (ap (retry maxsize r) (warn_lem maxsize (drop 1 q.records) q.warned q.warnings)
          ∙ rw (retry, open_again) refl)

  -- The warning is counted once.
  abbrev pub IsWarned : LogQueue A → Type 0
  IsWarned q = q.warnings ≡ (if q.warned then 1 else 0)

  -- Whatever records are logged while nothing takes them, the bounded queue holds the newest of
  -- them, in their order and at most its size, and the warning of a loss has been given exactly
  -- where there were more than fit, and once; the size is positive and the queue started within it.
  pub enqueue_all-newest :
      (maxsize : ℕ) (rs : List A) (q : LogQueue A)
      → 0 < maxsize
      → length q.records ≤ maxsize
      → IsWarned q
      → ((enqueue_all maxsize rs q).records ≡ newest maxsize (q.records ++ rs))
        × ((enqueue_all maxsize rs q).warned
            ≡ (q.warned || ltb maxsize (length q.records + length rs)))
        × IsWarned (enqueue_all maxsize rs q)
  unfolding enqueue_all
  enqueue_all-newest maxsize [] q pos fits once =
      let none_over : length (q.records ++ []) - maxsize ≡ 0 =
        omega (arith, length-append q.records []) in
      (rw none_over (sym (append-nil q.records)), ground (arith, fits), once)
  enqueue_all-newest maxsize (r ∷ rs) q pos fits once =
      elim (Bool-cases (ltb (length q.records) maxsize)) [
        | inl room ↦
            let rest =
              enqueue_all-newest maxsize rs (record q { records = q.records ++ r ∷ [] }) pos
                (ground (arith, room, length-append q.records (r ∷ []))) once in
            rw (enqueue_all, enqueue_room maxsize r q room)
              (
                rest.0 ∙ ap (newest maxsize) (append-rest q.records r rs),
                rest.1
                    ∙ ap (λ (n : ℕ). q.warned || ltb maxsize n)
                        (omega (arith, length-append q.records (r ∷ []))),
                rest.2,
              )
        | inr over ↦
            let full : length q.records ≡ maxsize = ground (arith, over) in
            let q' : LogQueue A = record q {
              records = drop 1 q.records ++ r ∷ [];
              warned = true;
              warnings = if q.warned then q.warnings else q.warnings + 1;
            } in
            let rest =
              enqueue_all-newest maxsize rs q' pos
                (ground
                  (arith, full, length-append (drop 1 q.records) (r ∷ []), length-drop 1 q.records))
                (ground (arith, once)) in
            rw (enqueue_all, enqueue_full maxsize r q pos full)
              (
                rest.0
                    ∙ ap (newest maxsize) (append-rest (drop 1 q.records) r rs)
                    ∙ full-newest maxsize q.records rs r pos full,
                rest.1 ∙ ground (arith, full),
                rest.2,
              )
      ]
