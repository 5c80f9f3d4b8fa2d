-- ===== src/Prelude/Pigeons.antt =====
-- The pigeonhole principle: tests that no row satisfies two of cannot outnumber the rows, where
-- each has a row.
use Prim.Native.Nat.{ℕ, zero, suc, ◌+◌, ◌≤◌, ◌<◌}
use mathlib.Core.Path.{◌≡◌, refl}
use mathlib.Core.Logic.{inl, inr}
use mathlib.Core.Bool.{Bool, true}
use mathlib.Core.List.{List, [], ◌∷◌}
use native.Mathlib.Omega.{arith}
use clawie.Prelude.Tests.{if◌then◌else◌, Bool-cases}
use clawie.Prelude.Lists.{length}
use clawie.Prelude.Table.{exists}
use clawie.Prelude.Count.{count}

module _ {ℓ} {A : Type ℓ} (p : ℕ → A → Bool) where
  -- how many rows satisfy p k, p (k + 1), …, p (k + n - 1), together
  abbrev total : ℕ → ℕ → List A → ℕ
  total k zero xs = 0
  total k (suc n) xs = count (p k) xs + total (suc k) n xs

  -- how many of these tests a row satisfies
  abbrev hits : ℕ → ℕ → A → ℕ
  hits k zero x = 0
  hits k (suc n) x = (if p k x then 1 else 0) + hits (suc k) n x

  total-nil : (k n : ℕ) → total k n [] ≡ 0
  total-nil k zero = refl
  total-nil k (suc n) = omega (arith, total-nil (suc k) n)

  total-cons : (k n : ℕ) (x : A) (xs : List A) → total k n (x ∷ xs) ≡ hits k n x + total k n xs
  total-cons k zero x xs = refl
  total-cons k (suc n) x xs = omega (arith, total-cons (suc k) n x xs)

  hits-zero : (k n : ℕ) (x : A) → ((i : ℕ) → k ≤ i → p i x ≡ true → ⊥) → hits k n x ≡ 0
  hits-zero k zero x none_of = refl
  hits-zero k (suc n) x none_of =
      let rest : hits (suc k) n x ≡ 0 =
        hits-zero (suc k) n x (λ i h. none_of i (omega (arith, h))) in
      elim (Bool-cases (p k x)) [
        | inl e ↦ absurd (none_of k (omega arith) e)
        | inr e ↦ rw (e, rest)
      ]

  module _ (apart : (i j : ℕ) (x : A) → p i x ≡ true → p j x ≡ true → i ≡ j) where
    hits-le_one : (k n : ℕ) (x : A) → hits k n x ≤ 1
    hits-le_one k zero x = omega arith
    hits-le_one k (suc n) x = elim (Bool-cases (p k x)) [
      | inl e ↦
          let rest : hits (suc k) n x ≡ 0 =
            hits-zero (suc k) n x (λ i h e'. omega (arith, h, apart k i x e e')) in
          ground (arith, e, rest)
      | inr e ↦ ground (arith, e, hits-le_one (suc k) n x)
    ]

    total-le_length : (k n : ℕ) (xs : List A) → total k n xs ≤ length xs
    total-le_length k n [] = omega (arith, total-nil k n)
    total-le_length k n (x ∷ xs) =
        omega (arith, total-cons k n x xs, hits-le_one k n x, total-le_length k n xs)

    count-pos : (i : ℕ) (xs : List A) → exists (p i) xs ≡ true → 1 ≤ count (p i) xs
    count-pos i [] e = ground (arith, e)
    count-pos i (x ∷ xs) e = ground (arith, e, count-pos i xs)

    le-total :
        (k n : ℕ) (xs : List A)
        → ((i : ℕ) → k ≤ i → i < k + n → exists (p i) xs ≡ true)
        → n ≤ total k n xs
    le-total k zero xs each = omega arith
    le-total k (suc n) xs each = omega (
      arith,
      count-pos k xs (each k (omega arith) (omega arith)),
      le-total (suc k) n xs (λ i h h'. each i (omega (arith, h)) (omega (arith, h'))),
    )

    -- Where each of n tests has a row, there are at least n rows.
    pub pigeons : (n : ℕ) (xs : List A) → ((i : ℕ) → i < n → exists (p i) xs ≡ true) → n ≤ length xs
    pigeons n xs each =
        omega
          (arith, le-total 0 n xs (λ i h h'. each i (omega (arith, h'))), total-le_length 0 n xs)
