-- ===== src/Prelude/Rows.antt =====
-- Inserts and deletes seen by a later SELECT, and predicates on all the rows that one returns.
use mathlib.Core.Path.{◌≡◌, refl, subst, ap}
use mathlib.Core.Bool.{Bool, true, false, ◌||◌}
use mathlib.Core.Option.{none, some, some-injective}
use mathlib.Core.List.{List, [], ◌∷◌, ◌++◌}
use native.Mathlib.Omega.{arith}
use clawie.Prelude.Tests.{if◌then◌else◌}
use clawie.Prelude.Lists.{All}
use clawie.Prelude.Table.{select, find, exists, delete_where, order_by, insert_sorted}

module _ {ℓ} {A : Type ℓ} where
  pub exists-append :
      (p : A → Bool) (xs : List A) (y : A) → exists p (xs ++ y ∷ []) ≡ (exists p xs || p y)
  exists-append p [] y = ground arith
  exists-append p (x ∷ xs) y = ground (arith, exists-append p xs y)

  -- A DELETE leaves no row that it names.
  pub exists-delete_where : (p : A → Bool) (xs : List A) → exists p (delete_where p xs) ≡ false
  exists-delete_where p [] = refl
  exists-delete_where p (x ∷ xs) = ground (arith, exists-delete_where p xs)

  -- A DELETE of other rows.
  pub exists-delete_where_apart :
      (p q : A → Bool) (xs : List A)
      → ((x : A) → p x ≡ true → q x ≡ false)
      → exists p (delete_where q xs) ≡ exists p xs
  exists-delete_where_apart p q [] apart = refl
  exists-delete_where_apart p q (x ∷ xs) apart =
      ground (arith, apart x, exists-delete_where_apart p q xs apart)

  -- A row that is inserted and deleted again.
  pub delete_where-append :
      (p : A → Bool) (xs : List A) (y : A)
      → p y ≡ true
      → delete_where p (xs ++ y ∷ []) ≡ delete_where p xs
  delete_where-append p [] y h = ground (arith, h)
  delete_where-append p (x ∷ xs) y h = ground (arith, delete_where-append p xs y h)

module _ {ℓ κ} {A : Type ℓ} (P : A → Type κ) where
  pub All-order_by : (before : A → A → Bool) (xs : List A) → All P xs → All P (order_by before xs)
  All-order_by before [] h = h
  All-order_by before (x ∷ xs) h = insert x (order_by before xs) h.0 (All-order_by before xs h.1)
    where
      choose :
          (b : Bool) (x y : A) (ys rest : List A)
          → P x
          → P y
          → All P ys
          → All P rest
          → All P (if b then x ∷ y ∷ ys else y ∷ rest)
      choose true x y ys rest hx hy hys hrest = (hx, (hy, hys))
      choose false x y ys rest hx hy hys hrest = (hy, hrest)

      insert : (x : A) (ys : List A) → P x → All P ys → All P (insert_sorted before x ys)
      insert x [] hx h = (hx, h)
      insert x (y ∷ ys) hx h =
          choose (before x y) x y ys (insert_sorted before x ys) hx h.0 h.1 (insert x ys hx h.1)

  pub All-find : (q : A → Bool) (xs : List A) {x : A} → All P xs → find q xs ≡ some x → P x
  All-find q [] h e = ground (arith, e)
  All-find q (y ∷ ys) {x} h e = choose (q y) h.0 (λ e'. All-find q ys h.1 e') e
    where
      choose :
          (b : Bool)
          → P y
          → (find q ys ≡ some x → P x)
          → (if b then some y else find q ys) ≡ some x
          → P x
      choose true hy later e' = subst P (some-injective y x e') hy
      choose false hy later e' = later e'

module _ {ℓ} {A : Type ℓ} where
  pub All-holds : (p : A → Bool) (xs : List A) → All (λ x. p x ≡ true) (select p xs)
  All-holds p [] = tt
  All-holds p (x ∷ xs) = keep (p x) (All-holds p xs) refl
    where
      keep :
          (b : Bool)
          → All (λ x. p x ≡ true) (select p xs)
          → p x ≡ b
          → All (λ x. p x ≡ true) (if b then x ∷ select p xs else select p xs)
      keep true rest e = (e, rest)
      keep false rest e = rest

  pub select-append :
      (p : A → Bool) (xs : List A) (y : A)
      → p y ≡ true
      → select p (xs ++ y ∷ []) ≡ select p xs ++ y ∷ []
  select-append p [] y h = ground (arith, h)
  select-append p (x ∷ xs) y h = keep (p x) (select-append p xs y h)
    where
      keep :
          (b : Bool)
          → select p (xs ++ y ∷ []) ≡ select p xs ++ y ∷ []
          → (if b then x ∷ select p (xs ++ y ∷ []) else select p (xs ++ y ∷ []))
            ≡ (if b then x ∷ select p xs else select p xs) ++ y ∷ []
      keep true e = ap (λ zs. x ∷ zs) e
      keep false e = e

  -- The first row of an ordered table is missing only where the table is empty.
  pub find_first-none :
      (before : A → A → Bool) (xs : List A) → find (λ x. true) (order_by before xs) ≡ none → xs ≡ []
  find_first-none before [] h = refl
  find_first-none before (x ∷ xs) h = absurd (inserted x (order_by before xs) h)
    where
      choose :
          (b : Bool) (x y : A) (ys rest : List A)
          → ¬ (find (λ z. true) (if b then x ∷ y ∷ ys else y ∷ rest) ≡ none)
      choose true x y ys rest e = ground (arith, e)
      choose false x y ys rest e = ground (arith, e)

      inserted : (x : A) (ys : List A) → ¬ (find (λ z. true) (insert_sorted before x ys) ≡ none)
      inserted x [] e = ground (arith, e)
      inserted x (y ∷ ys) e = choose (before x y) x y ys (insert_sorted before x ys) e
