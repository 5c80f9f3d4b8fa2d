-- ===== src/Prelude/Table.antt =====
-- An SQL table as the list of its rows in insertion order: the statements that the program's
-- queries are made of, each with a Boolean `WHERE` clause.
use Prim.Native.Nat.{ℕ, max, ◌≤◌, ◌<◌}
use mathlib.Core.Path.{◌≡◌, refl}
use mathlib.Core.Bool.{Bool, true, false, not, ◌||◌}
use mathlib.Core.Option.{Option, none, some}
use mathlib.Core.List.{List, [], ◌∷◌, ◌++◌, map}
use native.Mathlib.Omega.{arith}
use clawie.Prelude.Tests.{if◌then◌else◌, is_some}
use clawie.Prelude.Lists.{length, All}

module _ {ℓ} {A : Type ℓ} where
  -- SELECT … WHERE …, all rows
  abbrev pub select : (A → Bool) → List A → List A
  select p [] = []
  select p (x ∷ xs) = let rest = select p xs in if p x then x ∷ rest else rest

  -- SELECT … WHERE …, the first row
  abbrev pub find : (A → Bool) → List A → Option A
  find p [] = none
  find p (x ∷ xs) = if p x then some x else find p xs

  -- SELECT 1 … WHERE …
  abbrev pub exists : (A → Bool) → List A → Bool
  exists p xs = is_some (find p xs)

  -- UPDATE … SET … WHERE …
  abbrev pub update_where : (A → Bool) → (A → A) → List A → List A
  update_where p f [] = []
  update_where p f (x ∷ xs) = (if p x then f x else x) ∷ update_where p f xs

  -- a change of the first member that is found
  abbrev pub update_first : (A → Bool) → (A → A) → List A → List A
  update_first p f [] = []
  update_first p f (x ∷ xs) = let rest = x ∷ update_first p f xs in if p x then f x ∷ xs else rest

  -- DELETE … WHERE …
  abbrev pub delete_where : (A → Bool) → List A → List A
  delete_where p xs = select (λ x. not (p x)) xs

  -- ORDER BY …: an insertion sort; `before x y` says that x may stand before y, and rows that
  -- tie keep their order
  abbrev pub insert_sorted : (A → A → Bool) → A → List A → List A
  insert_sorted before x [] = x ∷ []
  insert_sorted before x (y ∷ ys) =
      let rest = insert_sorted before x ys in if before x y then x ∷ y ∷ ys else y ∷ rest

  abbrev pub order_by : (A → A → Bool) → List A → List A
  order_by before [] = []
  order_by before (x ∷ xs) = insert_sorted before x (order_by before xs)

  -- COALESCE(MAX(column), 0)
  abbrev pub max_of : (A → ℕ) → List A → ℕ
  max_of f [] = 0
  max_of f (x ∷ xs) = max (f x) (max_of f xs)

module _ {ℓ} {A : Type ℓ} where
  pub find-append :
      (p : A → Bool) (xs : List A) (y : A)
      → find p (xs ++ y ∷ []) ≡ (if exists p xs then find p xs else if p y then some y else none)
  find-append p [] y = refl
  find-append p (x ∷ xs) y = ground (arith, find-append p xs y)

  -- What a SELECT returns satisfies its WHERE clause.
  pub find-holds : (p : A → Bool) (xs : List A) {x : A} → find p xs ≡ some x → p x ≡ true
  find-holds p [] h = ground arith
  find-holds p (y ∷ ys) {x} h = ground (arith, find-holds p ys {x = x})

  pub All-select {κ} :
      (P : A → Type κ) (p : A → Bool) (xs : List A) → All P xs → All P (select p xs)
  All-select P p [] h = h
  All-select P p (x ∷ xs) h = keep (p x) (All-select P p xs h.1)
    where
      keep : (b : Bool) → All P (select p xs) → All P (if b then x ∷ select p xs else select p xs)
      keep true rest = (h.0, rest)
      keep false rest = rest

  pub All-update_where {κ} :
      (P : A → Type κ) (p : A → Bool) (f : A → A) (xs : List A)
      → ((x : A) → P x → P (f x))
      → All P xs
      → All P (update_where p f xs)
  All-update_where P p f [] keep h = h
  All-update_where P p f (x ∷ xs) keep h = (one (p x), All-update_where P p f xs keep h.1)
    where
      one : (b : Bool) → P (if b then f x else x)
      one true = keep x h.0
      one false = h.0

  pub length-update_where :
      (p : A → Bool) (f : A → A) (xs : List A) → length (update_where p f xs) ≡ length xs
  length-update_where p f [] = refl
  length-update_where p f (x ∷ xs) = omega (arith, length-update_where p f xs)

  pub max_of-append :
      (f : A → ℕ) (xs : List A) (y : A) → max_of f (xs ++ y ∷ []) ≡ max (max_of f xs) (f y)
  max_of-append f [] y = omega arith
  max_of-append f (x ∷ xs) y = omega (arith, max_of-append f xs y)

  -- An UPDATE that leaves a column alone leaves the list of its values.
  pub map-update_where {κ} :
      {B : Type κ} (g : A → B) (p : A → Bool) (f : A → A) (xs : List A)
      → ((x : A) → g (f x) ≡ g x)
      → map g (update_where p f xs) ≡ map g xs
  map-update_where g p f [] keep = refl
  map-update_where g p f (x ∷ xs) keep = cc (same (p x), map-update_where g p f xs keep)
    where
      same : (b : Bool) → g (if b then f x else x) ≡ g x
      same true = keep x
      same false = refl

  pub All-weaken {κ λ'} :
      (P : A → Type κ) (Q : A → Type λ')
      → ((x : A) → P x → Q x)
      → (xs : List A) → All P xs
      → All Q xs
  All-weaken P Q w [] h = tt
  All-weaken P Q w (x ∷ xs) h = (w x h.0, All-weaken P Q w xs h.1)

  pub All-le-max_of : (f : A → ℕ) (xs : List A) → All (λ x. f x ≤ max_of f xs) xs
  All-le-max_of f [] = tt
  All-le-max_of f (x ∷ xs) = (
    omega arith,
    All-weaken (λ y. f y ≤ max_of f xs) (λ y. f y ≤ max (f x) (max_of f xs)) (λ y h. omega arith) xs
        (All-le-max_of f xs),
  )

  -- A row whose column exceeds the column's maximum is found by no test for that value.
  pub find-or_above :
      (p q : A → Bool) (f : A → ℕ) (xs : List A) (n : ℕ)
      → ((x : A) → q x ≡ true → f x ≡ n)
      → max_of f xs < n
      → exists (λ x. p x || q x) xs ≡ exists p xs
  find-or_above p q f [] n only h = refl
  find-or_above p q f (x ∷ xs) n only h =
      ground (arith, only x, find-or_above p q f xs n only (omega arith))

module _ {ℓ} {A : Type ℓ} (p q : A → Bool) (f : A → A) where
  -- An UPDATE that takes its rows out of a SELECT, and the rows that it leaves never were in it.
  pub select-update_where_nil :
      (xs : List A)
      → ((x : A) → q x ≡ true → p (f x) ≡ false)
      → ((x : A) → q x ≡ false → p x ≡ false)
      → select p (update_where q f xs) ≡ []
  select-update_where_nil [] out never = refl
  select-update_where_nil (x ∷ xs) out never =
      ground (arith, out x, never x, select-update_where_nil xs out never)

  -- An UPDATE of rows that are not in a SELECT, before it and after.
  pub select-update_where_same :
      (xs : List A)
      → ((x : A) → q x ≡ true → p x ≡ false)
      → ((x : A) → q x ≡ true → p (f x) ≡ false)
      → select p (update_where q f xs) ≡ select p xs
  select-update_where_same [] before after = refl
  select-update_where_same (x ∷ xs) before after =
      ground (arith, before x, after x, select-update_where_same xs before after)

  -- The first row that a SELECT finds is the same after an UPDATE of rows outside it.
  pub find-update_where_same :
      (xs : List A)
      → ((x : A) → q x ≡ true → p x ≡ false)
      → ((x : A) → q x ≡ true → p (f x) ≡ false)
      → find p (update_where q f xs) ≡ find p xs
  find-update_where_same [] before after = refl
  find-update_where_same (x ∷ xs) before after =
      ground (arith, before x, after x, find-update_where_same xs before after)

  -- An UPDATE undoes another.
  pub update_where-update_where :
      (g : A → A) (xs : List A)
      → ((x : A) → q x ≡ true → (p (f x) ≡ true) × (g (f x) ≡ x))
      → All (λ x. p x ≡ false) xs
      → update_where p g (update_where q f xs) ≡ xs
  update_where-update_where g [] undo h = refl
  update_where-update_where g (x ∷ xs) undo h =
      ground (arith, undo x, update_where-update_where g xs undo h.1)

module _ {ℓ} {A : Type ℓ} (p q : A → Bool) (f : A → A) where
  -- No row is found after an UPDATE of all the rows that could be.
  pub find-update_where-none :
      (xs : List A)
      → ((x : A) → q x ≡ true → p (f x) ≡ false)
      → ((x : A) → q x ≡ false → p x ≡ false)
      → find p (update_where q f xs) ≡ none
  find-update_where-none [] out never = refl
  find-update_where-none (x ∷ xs) out never =
      ground (arith, out x, never x, find-update_where-none xs out never)

  -- The first row found after an UPDATE that keeps the rows of a SELECT in it is the updated
  -- first row.
  pub find-update_where_image :
      (xs : List A)
      → ((x : A) → q x ≡ true → p (f x) ≡ p x)
      → ((x : A) → q x ≡ false → p x ≡ false)
      → {x : A} → find p xs ≡ some x
      → find p (update_where q f xs) ≡ some (f x)
  find-update_where_image [] keep never h = ground arith
  find-update_where_image (y ∷ ys) keep never {x} h =
      ground (arith, keep y, never y, find-update_where_image ys keep never {x = x})

module _ {ℓ} {A : Type ℓ} (p q : A → Bool) (f : A → A) where
  -- The first row found is the same after an UPDATE that leaves it, and the rows' membership, alone.
  pub find-update_where_other :
      (xs : List A)
      → ((x : A) → p (f x) ≡ p x)
      → {x : A} → find p xs ≡ some x
      → q x ≡ false
      → find p (update_where q f xs) ≡ some x
  find-update_where_other [] keep e out = ground arith
  find-update_where_other (y ∷ ys) keep {x} e out =
      ground (arith, keep y, e, out, find-update_where_other ys keep {x = x})

  pub exists-update_where :
      (xs : List A)
      → ((x : A) → p (f x) ≡ true → p x ≡ true)
      → exists p xs ≡ false
      → exists p (update_where q f xs) ≡ false
  exists-update_where [] only e = refl
  exists-update_where (x ∷ xs) only e = ground (arith, only x, e, exists-update_where xs only)
