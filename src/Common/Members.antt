-- ===== src/Common/Members.antt =====
-- What stands in a list, through the operations on lists.
use mathlib.Core.Path.{ap, ◌≡◌, refl, sym}
use mathlib.Core.Logic.{◌⊎◌, inl, inr}
use mathlib.Core.Bool.{Bool, true}
use mathlib.Core.List.{List, [], ◌∷◌, ◌++◌, map}
use mathlib.Core.Option.{some}
use Prim.Native.Nat.{◌+◌, ◌≤◌}
use native.Mathlib.Omega.{arith}
use task_scheduler_mcp.Common.Tests.{Bool-cases}
use task_scheduler_mcp.Common.Lists.{head?, select, count, insert_by, order_by}

abbrev pub Has : {A : Type 0} → A → List A → Type 0
Has x [] = ⊥
Has x (y ∷ ys) = (x ≡ y) ⊎ Has x ys

module _ {A : Type 0} where
  pub Has-append-left : (x : A) (xs ys : List A) → Has x xs → Has x (xs ++ ys)
  Has-append-left x (y ∷ xs) ys (inl here) = inl here
  Has-append-left x (y ∷ xs) ys (inr later) = inr (Has-append-left x xs ys later)
  Has-append-left x [] ys h = absurd h

  pub Has-append-right : (x : A) (xs ys : List A) → Has x ys → Has x (xs ++ ys)
  Has-append-right x [] ys h = h
  Has-append-right x (y ∷ xs) ys h = inr (Has-append-right x xs ys h)

  pub Has-append : (x : A) (xs ys : List A) → Has x (xs ++ ys) → Has x xs ⊎ Has x ys
  Has-append x [] ys h = inr h
  Has-append x (y ∷ xs) ys (inl here) = inl (inl here)
  Has-append x (y ∷ xs) ys (inr later) = elim (Has-append x xs ys later) [
    | inl left ↦ inl (inr left)
    | inr right ↦ inr right
  ]

  pub Has-select :
      (p : A → Bool) (x : A) (xs : List A) → Has x (select p xs) → Has x xs × (p x ≡ true)
  Has-select p x [] h = absurd h
  Has-select p x (y ∷ ys) h = elim (Bool-cases (p y)) [
    | inr out ↦ let rest = Has-select p x ys (rw out at h) in (inr rest.0, rest.1)
    | inl kept ↦ elim (rw kept at h) [
      | inl here ↦ (inl here, rw here kept)
      | inr later ↦ let rest = Has-select p x ys later in (inr rest.0, rest.1)
    ]
  ]

  pub select-Has :
      (p : A → Bool) (x : A) (xs : List A) → Has x xs → p x ≡ true → Has x (select p xs)
  select-Has p x [] h own = h
  select-Has p x (y ∷ ys) (inl here) own =
      let kept : p y ≡ true = rw (sym here) own in rw kept (inl here)
  select-Has p x (y ∷ ys) (inr later) own = elim (Bool-cases (p y)) [
    | inl kept ↦ rw kept (inr (select-Has p x ys later own))
    | inr out ↦ rw out (select-Has p x ys later own)
  ]

  pub Has-insert_by :
      (le : A → A → Bool) (x a : A) (xs : List A) → Has x (insert_by le a xs) → Has x (a ∷ xs)
  Has-insert_by le x a [] h = h
  Has-insert_by le x a (y ∷ ys) h = elim (Bool-cases (le a y)) [
    | inl first ↦ rw first at h
    | inr later ↦ elim (rw later at h) [
      | inl here ↦ inr (inl here)
      | inr rest ↦ elim (Has-insert_by le x a ys rest) [
        | inl own ↦ inl own
        | inr other ↦ inr (inr other)
      ]
    ]
  ]

  pub insert_by-Has :
      (le : A → A → Bool) (x a : A) (xs : List A) → Has x (a ∷ xs) → Has x (insert_by le a xs)
  insert_by-Has le x a [] h = h
  insert_by-Has le x a (y ∷ ys) h = elim (Bool-cases (le a y)) [
    | inl first ↦ rw first h
    | inr later ↦ rw later (elim h [
      | inl own ↦ inr (insert_by-Has le x a ys (inl own))
      | inr (inl here) ↦ inl here
      | inr (inr rest) ↦ inr (insert_by-Has le x a ys (inr rest))
    ])
  ]

  pub Has-order_by : (le : A → A → Bool) (x : A) (xs : List A) → Has x (order_by le xs) → Has x xs
  Has-order_by le x [] h = h
  Has-order_by le x (y ∷ ys) h = elim (Has-insert_by le x y (order_by le ys) h) [
    | inl here ↦ inl here
    | inr later ↦ inr (Has-order_by le x ys later)
  ]

  pub order_by-Has : (le : A → A → Bool) (x : A) (xs : List A) → Has x xs → Has x (order_by le xs)
  order_by-Has le x [] h = h
  order_by-Has le x (y ∷ ys) (inl here) = insert_by-Has le x y (order_by le ys) (inl here)
  order_by-Has le x (y ∷ ys) (inr later) =
      insert_by-Has le x y (order_by le ys) (inr (order_by-Has le x ys later))

  -- The row that a lookup finds.
  pub head?-Has : (x : A) (xs : List A) → head? xs ≡ some x → Has x xs
  head?-Has x [] h = absurd (cc h)
  head?-Has x (y ∷ ys) h = let same : y ≡ x = cc h in inl (sym same)

  -- The one row that passes is found.
  pub head?-only :
      (p : A → Bool) (x : A) (xs : List A)
      → Has x xs
      → p x ≡ true
      → count p xs ≤ 1
      → head? (select p xs) ≡ some x
  head?-only p x [] h own one = absurd h
  head?-only p x (y ∷ ys) (inl here) own one =
      let kept : p y ≡ true = rw (sym here) own in rw kept (ap some (sym here))
  head?-only p x (y ∷ ys) (inr later) own one = elim (Bool-cases (p y)) [
    | inr out ↦ rw out (
        head?-only p x ys later own
          (let le : 0 + count p ys ≤ 1 = rw out at one in omega (arith, le)))
    | inl kept ↦ absurd (two (rw kept at one) later)
  ]
    where
      some_counted : (zs : List A) → Has x zs → 1 ≤ count p zs
      some_counted [] h = absurd h
      some_counted (z ∷ zs) (inl here) =
          let it : p z ≡ true = rw (sym here) own in rw it (omega arith)
      some_counted (z ∷ zs) (inr h) = ground (arith, some_counted zs h)

      two : 1 + count p ys ≤ 1 → Has x ys → ⊥
      two le h = omega (arith, some_counted ys h, le)

module _ {A B : Type 0} (f : A → B) where
  pub Has-map : (b : B) (xs : List A) → Has b (map f xs) → (a : A) × Has a xs × (b ≡ f a)
  Has-map b [] h = absurd h
  Has-map b (x ∷ xs) (inl here) = (x, inl refl, here)
  Has-map b (x ∷ xs) (inr later) = let rest = Has-map b xs later in (rest.0, inr rest.1, rest.2)

  pub map-Has : (a : A) (xs : List A) → Has a xs → Has (f a) (map f xs)
  map-Has a [] h = h
  map-Has a (x ∷ xs) (inl here) = inl (ap f here)
  map-Has a (x ∷ xs) (inr later) = inr (map-Has a xs later)
