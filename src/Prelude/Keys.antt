-- ===== src/Prelude/Keys.antt =====
-- The row of a table that is found by a key.
use Prim.Native.Nat.{◌≤◌}
use mathlib.Core.Path.{◌≡◌, refl, sym, ap, subst}
use mathlib.Core.Logic.{inl, inr}
use mathlib.Core.Bool.{Bool, true, false, false≢true}
use mathlib.Core.Option.{Option, some, some-injective}
use mathlib.Core.List.{List, [], ◌∷◌, ◌++◌, Memᴰ}
use native.Mathlib.Omega.{arith}
use clawie.Prelude.Tests.{if-intro, Bool-cases, is_some}
use clawie.Prelude.Table.{find, exists}
use clawie.Prelude.Count.{count}

module _ {A : Type 0} (p q : A → Bool) where
  found-counts : (xs : List A) (x : A) → find q xs ≡ some x → p x ≡ true → 1 ≤ count p xs
  found-counts [] x e h = absurd (false≢true (ap is_some e))
  found-counts (y ∷ xs) x e h =
      if-intro (λ (o : Option A). o ≡ some x → 1 ≤ count p (y ∷ xs)) (q y)
        (λ _ same.
          let h' : p y ≡ true = subst (λ z. p z ≡ true) (sym (some-injective y x same)) h in
          ground (arith, h'))
        (λ _ e'. ground (arith, found-counts xs x e' h)) e

  -- A row of a table whose key is unique is found by its key.
  pub find-key :
      (xs : List A) (x : A) → find q xs ≡ some x → p x ≡ true → count p xs ≤ 1 → find p xs ≡ some x
  find-key [] x e h one = absurd (false≢true (ap is_some e))
  find-key (y ∷ xs) x e h one =
      if-intro (λ (o : Option A). o ≡ some x → find p (y ∷ xs) ≡ some x) (q y)
        (λ _ same.
          let h' : p y ≡ true = subst (λ z. p z ≡ true) (sym (some-injective y x same)) h in
          rw h' same)
        (λ _ e'. elim (Bool-cases (p y)) [
          | inl t ↦ absurd (omega (arith, found-counts xs x e' h, rw t at one))
          | inr f ↦ rw f (find-key xs x e' h (omega (arith, rw f at one)))
        ])
        e

-- A row that was added last is found, where a test that covers its own found none.
pub find-fresh :
    {A : Type 0} (p r : A → Bool)
    → ((x : A) → r x ≡ false → p x ≡ false)
    → (xs : List A) (y : A) → exists r xs ≡ false
    → p y ≡ true
    → find p (xs ++ y ∷ []) ≡ some y
find-fresh p r within [] y free h = rw h refl
find-fresh p r within (x ∷ xs) y free h = elim (Bool-cases (r x)) [
  | inl t ↦ absurd (false≢true (sym (rw t at free)))
  | inr f ↦ rw (within x f) (find-fresh p r within xs y (rw f at free) h)
]

-- A row that is found is a row of the table.
pub find-Memᴰ : {A : Type 0} (p : A → Bool) (xs : List A) (x : A) → find p xs ≡ some x → Memᴰ x xs
find-Memᴰ p [] x e = absurd (false≢true (ap is_some e))
find-Memᴰ {A} p (y ∷ xs) x e =
    if-intro (λ (o : Option A). o ≡ some x → Memᴰ x (y ∷ xs)) (p y)
      (λ _ e'. Memᴰ.head (sym (some-injective y x e'))) (λ _ e'. Memᴰ.tail (find-Memᴰ p xs x e')) e
