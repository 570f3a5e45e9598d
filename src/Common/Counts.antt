-- ===== src/Common/Counts.antt =====
-- Counting the rows of a table, before and after an update.
use Prim.Native.Nat.{◌+◌, ◌≤◌, ◌<◌}
use mathlib.Core.Path.{ap, ◌≡◌, refl}
use mathlib.Core.Logic.{◌⊎◌, inl, inr}
use mathlib.Core.Bool.{not, Bool, true, false, ◌&&◌}
use mathlib.Core.List.{List, [], ◌∷◌}
use mathlib.Core.Option.{none, some}
use native.Mathlib.Omega.{arith}
use task_scheduler_mcp.Common.Tests.{&&-right, Bool-cases, if◌then◌else◌}
use task_scheduler_mcp.Common.Lists.{head?, select, All-map, exists, count, update, All}

module _ {ℓ} {A : Type ℓ} where
  pub exists-count : (p : A → Bool) (xs : List A) → exists p xs ≡ false → count p xs ≡ 0
  exists-count p [] h = refl
  exists-count p (x ∷ xs) h = ground (arith, exists-count p xs)

  pub count-exists : (p : A → Bool) (xs : List A) → exists p xs ≡ true → 0 < count p xs
  count-exists p [] h = cc
  count-exists p (x ∷ xs) h = ground (arith, count-exists p xs)

module _ {ℓ} {A : Type ℓ} (q g : A → Bool) where
  pub count-zero-All : (xs : List A) → count q xs ≡ 0 → All (λ x. q x ≡ false) xs
  count-zero-All [] h = tt
  count-zero-All (x ∷ xs) h = (ground arith, count-zero-All xs (ground arith))

  pub All-count-zero : (xs : List A) → All (λ x. q x ≡ false) xs → count q xs ≡ 0
  All-count-zero [] h = refl
  All-count-zero (x ∷ xs) h = ground (arith, All-count-zero xs h.1)

  pub count-and-le : (xs : List A) → count (λ x. q x && g x) xs ≤ count q xs
  count-and-le [] = omega arith
  count-and-le (x ∷ xs) = ground (arith, count-and-le xs)

  -- Where one row at most is under `q`, and one of these is under `g`, every row under `q` is.
  pub All-only_one :
      (xs : List A)
      → count q xs ≤ 1
      → exists (λ x. q x && g x) xs ≡ true
      → All (λ x. q x ≡ true → g x ≡ true) xs
  All-only_one [] c e = tt
  All-only_one (x ∷ xs) c e = elim (Bool-cases (q x && g x)) [
    | inl here ↦ (
      λ _. &&-right (q x) (g x) here,
      All-map xs (λ y h t. cc) (count-zero-All xs (ground (arith, here))),
    )
    | inr there ↦
        let later : exists (λ y. q y && g y) xs ≡ true = ground (arith, there, e) in
        let some_there : 0 < count (λ y. q y && g y) xs = count-exists _ xs later in
        (ground (arith, count-and-le xs), All-only_one xs (ground arith) later)
  ]

test-le : (a b : Bool) → (a ≡ true → b ≡ true) → (if a then 1 else 0) ≤ (if b then 1 else 0)
test-le a b h = ground arith

module _ {ℓ} {A : Type ℓ} (p : A → Bool) (f : A → A) where
  pub All-update {κ} :
      (Q : A → Type κ) (xs : List A)
      → All (λ x. Q (if p x then f x else x)) xs
      → All Q (update p f xs)
  All-update Q [] a = tt
  All-update Q (x ∷ xs) a = (a.0, All-update Q xs a.1)

  -- An update that takes its rows out of `q` lowers the count by their number.
  pub count-update-add :
      (q : A → Bool) (xs : List A)
      → ((x : A) → p x ≡ true → (q x ≡ true) × (q (f x) ≡ false))
      → count q (update p f xs) + count p xs ≡ count q xs
  count-update-add q [] h = omega arith
  count-update-add q (x ∷ xs) h = ground (arith, h x, count-update-add q xs h)

  -- An update that puts no new row under `q` does not raise the count.
  pub count-update-le :
      (q : A → Bool) (xs : List A)
      → All (λ x. q (if p x then f x else x) ≡ true → q x ≡ true) xs
      → count q (update p f xs) ≤ count q xs
  count-update-le q [] a = omega arith
  count-update-le q (x ∷ xs) a =
      omega (arith, count-update-le q xs a.1, test-le (q (if p x then f x else x)) (q x) a.0)

module _ {ℓ} {A : Type ℓ} where
  pub select-select : (p : A → Bool) (xs : List A) → select p (select p xs) ≡ select p xs
  select-select p [] = refl
  select-select p (x ∷ xs) = elim (Bool-cases (p x)) [
    | inl kept ↦ rw (kept, kept) (ap (λ r. x ∷ r) (select-select p xs))
    | inr left ↦ rw left (select-select p xs)
  ]

  pub count-select-le : (q p : A → Bool) (xs : List A) → count q (select p xs) ≤ count q xs
  count-select-le q p [] = omega arith
  count-select-le q p (x ∷ xs) = ground (arith, count-select-le q p xs)

  pub count-select-not : (p : A → Bool) (xs : List A) → count p (select (λ x. not (p x)) xs) ≡ 0
  count-select-not p [] = refl
  count-select-not p (x ∷ xs) = ground (arith, count-select-not p xs)

  -- An updated row is found again.
  pub head?-select-update :
      (p : A → Bool) (f : A → A) (xs : List A)
      → ((x : A) → p (f x) ≡ p x)
      → exists p xs ≡ true
      → (x : A) × (head? (select p (update p f xs)) ≡ some (f x))
  head?-select-update p f [] keeps h = absurd (cc)
  head?-select-update p f (x ∷ xs) keeps h = elim (Bool-cases (p x)) [
    | inl own ↦ (x, rw (own, keeps x, own) refl)
    | inr other ↦
        let rest = head?-select-update p f xs keeps (rw other at h) in
        (rest.0, rw (other, other) rest.1)
  ]

  pub head?-select-cases :
      (p : A → Bool) (xs : List A)
      → ((exists p xs ≡ false) × (head? (select p xs) ≡ none))
        ⊎ ((x : A) × (exists p xs ≡ true) × (head? (select p xs) ≡ some x))
  head?-select-cases p [] = inl (refl, refl)
  head?-select-cases p (x ∷ xs) = elim (Bool-cases (p x)) [
    | inl own ↦ rw own (inr (x, refl, refl))
    | inr other ↦ rw other (head?-select-cases p xs)
  ]

  -- A second selection that implies the first.
  pub select-implied :
      (p q : A → Bool) (xs : List A)
      → ((x : A) → p x ≡ true → q x ≡ true)
      → select p (select q xs) ≡ select p xs
  select-implied p q [] h = refl
  select-implied p q (x ∷ xs) h = elim (Bool-cases (p x)) [
    | inl picked ↦ rw (h x picked, picked) (ap (λ r. x ∷ r) (select-implied p q xs h))
    | inr left ↦ elim (Bool-cases (q x)) [
      | inl kept ↦ rw (kept, left) (select-implied p q xs h)
      | inr dropped ↦ rw (dropped, left) (select-implied p q xs h)
    ]
  ]

  -- A filter and a stable sort lose nothing of what a count sees.
  pub count-select :
      (p q : A → Bool) (xs : List A) → count p (select q xs) ≡ count (λ x. q x && p x) xs
  count-select p q [] = refl
  count-select p q (x ∷ xs) = elim (Bool-cases (q x)) [
    | inl yes_q ↦ rw (yes_q) (ground (arith, count-select p q xs))
    | inr no_q ↦ rw (no_q) (omega (arith, count-select p q xs))
  ]
