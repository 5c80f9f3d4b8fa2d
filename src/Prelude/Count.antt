-- ===== src/Prelude/Count.antt =====
-- How many rows of a table satisfy a test, and what the statements on tables do to that number.
use Prim.Native.Nat.{ℕ, zero, suc, ◌+◌, ◌≤◌}
use mathlib.Core.Path.{◌≡◌, refl}
use mathlib.Core.Bool.{Bool, true, false}
use mathlib.Core.List.{List, [], ◌∷◌, ◌++◌}
use native.Mathlib.Omega.{arith}
use clawie.Prelude.Tests.{if◌then◌else◌}
use clawie.Prelude.Lists.{drop}
use clawie.Prelude.Table.{select, order_by, insert_sorted, exists, update_where, update_first}

module _ {ℓ} {A : Type ℓ} where
  -- SELECT COUNT(*) … WHERE …
  abbrev pub count : (A → Bool) → List A → ℕ
  count p [] = 0
  count p (x ∷ xs) = (if p x then 1 else 0) + count p xs

  pub count-append : (p : A → Bool) (xs ys : List A) → count p (xs ++ ys) ≡ count p xs + count p ys
  count-append p [] ys = omega arith
  count-append p (x ∷ xs) ys = omega (arith, count-append p xs ys)

  pub count-select-le : (p q : A → Bool) (xs : List A) → count p (select q xs) ≤ count p xs
  count-select-le p q [] = omega arith
  count-select-le p q (x ∷ xs) = ground (arith, count-select-le p q xs)

  -- A test that no row of a SELECT satisfies counts none of them.
  pub count-select-zero :
      (p q : A → Bool) (xs : List A)
      → ((x : A) → p x ≡ true → q x ≡ false)
      → count p (select q xs) ≡ 0
  count-select-zero p q [] apart = refl
  count-select-zero p q (x ∷ xs) apart = ground (arith, apart x, count-select-zero p q xs apart)

  -- A SELECT whose rows include all that satisfy a test leaves their number.
  pub count-select-same :
      (p q : A → Bool) (xs : List A)
      → ((x : A) → p x ≡ true → q x ≡ true)
      → count p (select q xs) ≡ count p xs
  count-select-same p q [] within = refl
  count-select-same p q (x ∷ xs) within = ground (arith, within x, count-select-same p q xs within)

  count-insert_sorted :
      (p : A → Bool) (before : A → A → Bool) (x : A) (xs : List A)
      → count p (insert_sorted before x xs) ≡ (if p x then 1 else 0) + count p xs
  count-insert_sorted p before x [] = refl
  count-insert_sorted p before x (y ∷ ys) = ground (arith, count-insert_sorted p before x ys)

  -- Sorting neither loses nor repeats a row.
  pub count-order_by :
      (p : A → Bool) (before : A → A → Bool) (xs : List A)
      → count p (order_by before xs) ≡ count p xs
  count-order_by p before [] = refl
  count-order_by p before (x ∷ xs) =
      omega (arith, count-insert_sorted p before x (order_by before xs), count-order_by p before xs)

  pub count-absent : (p : A → Bool) (xs : List A) → exists p xs ≡ false → count p xs ≡ 0
  count-absent p [] h = refl
  count-absent p (x ∷ xs) h = ground (arith, h, count-absent p xs)

  pub count-drop-le : (p : A → Bool) (n : ℕ) (xs : List A) → count p (drop n xs) ≤ count p xs
  count-drop-le p zero xs = omega arith
  count-drop-le p (suc n) [] = omega arith
  count-drop-le p (suc n) (x ∷ xs) = omega (arith, count-drop-le p n xs)

module _ {ℓ} {A : Type ℓ} (p q : A → Bool) (f : A → A) where
  -- A change that makes no row satisfy a test adds none to their number.
  pub count-update_where-le :
      (xs : List A)
      → ((x : A) → q x ≡ true → p (f x) ≡ true → p x ≡ true)
      → count p (update_where q f xs) ≤ count p xs
  count-update_where-le [] only = omega arith
  count-update_where-le (x ∷ xs) only = ground (arith, only x, count-update_where-le xs only)

  pub count-update_where-zero :
      (xs : List A)
      → ((x : A) → q x ≡ true → p (f x) ≡ false)
      → ((x : A) → q x ≡ false → p x ≡ false)
      → count p (update_where q f xs) ≡ 0
  count-update_where-zero [] out never = refl
  count-update_where-zero (x ∷ xs) out never =
      ground (arith, out x, never x, count-update_where-zero xs out never)

  pub count-update_first-le :
      (xs : List A)
      → ((x : A) → p (f x) ≡ true → p x ≡ true)
      → count p (update_first q f xs) ≤ count p xs
  count-update_first-le [] only = omega arith
  count-update_first-le (x ∷ xs) only = ground (arith, only x, count-update_first-le xs only)

module _ {ℓ} {A : Type ℓ} (p : A → Bool) (f : A → A) where
  -- A change that takes the first row that is found out of a test.
  pub count-update_first :
      (xs : List A)
      → ((x : A) → p (f x) ≡ false)
      → exists p xs ≡ true
      → count p (update_first p f xs) + 1 ≡ count p xs
  count-update_first [] out there = ground (arith, there)
  count-update_first (x ∷ xs) out there = ground (arith, out x, there, count-update_first xs out)
