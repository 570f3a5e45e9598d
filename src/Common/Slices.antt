-- ===== src/Common/Slices.antt =====
-- The parts of lists that are taken, dropped, appended and sorted.
use Prim.Native.Nat.{ℕ, zero, suc, ◌+◌, ◌≤◌}
use mathlib.Core.Path.{ap, ◌≡◌, refl, ◌∙◌}
use mathlib.Core.Bool.{Bool, ◌||◌}
use mathlib.Core.List.{List, [], ◌∷◌, ◌++◌}
use native.Mathlib.Omega.{arith}
use task_scheduler_mcp.Common.Lists.{length, take, drop, exists, insert_by, order_by}

module _ {ℓ} {A : Type ℓ} where
  pub length-append : (xs ys : List A) → length (xs ++ ys) ≡ length xs + length ys
  length-append [] ys = omega arith
  length-append (x ∷ xs) ys = omega (arith, length-append xs ys)

  pub take-append-drop : (n : ℕ) (xs : List A) → take n xs ++ drop n xs ≡ xs
  take-append-drop zero xs = refl
  take-append-drop (suc n) [] = refl
  take-append-drop (suc n) (x ∷ xs) = ap (λ ys. x ∷ ys) (take-append-drop n xs)

  pub take-fits : (n : ℕ) (xs : List A) → length xs ≤ n → take n xs ≡ xs
  take-fits zero [] h = refl
  take-fits zero (x ∷ xs) h = absurd (omega arith)
  take-fits (suc n) [] h = refl
  take-fits (suc n) (x ∷ xs) h = ap (λ ys. x ∷ ys) (take-fits n xs (omega arith))

  drop-nil : (n : ℕ) → drop {A = A} n [] ≡ []
  drop-nil zero = refl
  drop-nil (suc n) = refl

  pub drop-drop : (m n : ℕ) (xs : List A) → drop m (drop n xs) ≡ drop (n + m) xs
  drop-drop m zero xs = let e : 0 + m ≡ m = omega arith in rw e refl
  drop-drop m (suc n) [] = let e : suc n + m ≡ suc (n + m) = omega arith in rw e (drop-nil m)
  drop-drop m (suc n) (x ∷ xs) =
      let e : suc n + m ≡ suc (n + m) = omega arith in rw e (drop-drop m n xs)

  exists-insert_by :
      (p : A → Bool) (le : A → A → Bool) (a : A) (xs : List A)
      → exists p (insert_by le a xs) ≡ exists p (a ∷ xs)
  exists-insert_by p le a [] = refl
  exists-insert_by p le a (x ∷ xs) = ground (arith, exists-insert_by p le a xs)

  pub exists-order_by :
      (p : A → Bool) (le : A → A → Bool) (xs : List A) → exists p (order_by le xs) ≡ exists p xs
  exists-order_by p le [] = refl
  exists-order_by p le (x ∷ xs) =
      exists-insert_by p le x (order_by le xs)
      ∙ ap (λ (b : Bool). p x || b) (exists-order_by p le xs)
