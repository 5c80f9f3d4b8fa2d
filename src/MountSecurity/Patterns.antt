-- ===== src/MountSecurity/Patterns.antt =====
-- The texts that src/modules/mount-security/index.ts tests: container paths and blocked patterns.
use mathlib.Core.Path.{subst}
use Prim.Native.Char.{Char, code}
use Prim.Native.String.{[] as empty, ◌∷◌ as str_cons}
use clawie.Prelude.{
  String, true, false, Option, none, some, List, [], ◌∷◌, ◌++◌, ◌≡◌, refl, sym, ◌∙◌, inl, inr,
  arith, Bool-cases, if-intro, str_eq, str_eq_iff, str_eq_refl, if◌then◌else◌, ◌==◌, is_some,
  is_one_of, All, All-weaken, false≢true,
}
use clawie.Paths.{starts_with, includes, segments, cons_first}
use clawie.MountSecurity.{
  MountAllowlist, union, merged, default_blocked_patterns, is_blocked_by, matches_blocked_pattern,
}

-- The segments of a path without ".." in it

first : List String → String
first [] = ""
first (s ∷ rest) = s

first-cons_first : (c : Char) (l : List String) → first (cons_first c l) ≡ str_cons c (first l)
unfolding first
first-cons_first c [] = refl
first-cons_first c (s ∷ rest) = refl

first-starts : (s p : String) → starts_with (first (segments s)) p ≡ true → starts_with s p ≡ true
unfolding first
first-starts empty p h = h
first-starts (str_cons c s) empty h = refl
first-starts (str_cons c s) (str_cons d p) h = elim (Bool-cases (code c == b'/')) [
  | inl e ↦ absurd (false≢true (rw e at h))
  | inr e ↦
      let h' : starts_with (str_cons c (first (segments s))) (str_cons d p) ≡ true =
        subst (λ t. starts_with t (str_cons d p) ≡ true) (first-cons_first c (segments s))
          (rw e at h) in
      ground (arith, h', first-starts s p)
]

not_parent : (s t : String) → starts_with s ".." ≡ false → str_eq s ".." ≡ false
not_parent s t h = elim (Bool-cases (str_eq s "..")) [
  | inl e ↦ absurd (
      false≢true
        (sym h ∙ subst (λ u. starts_with u ".." ≡ true) (sym ((str_eq_iff s "..").0 e)) refl))
  | inr e ↦ e
]

abbrev pub HasNoParent : List String → Type 0
HasNoParent l = All (λ s. str_eq s ".." ≡ false) l

cons_first-HasNoParent :
    (c : Char) (l : List String)
    → starts_with (str_cons c (first l)) ".." ≡ false
    → HasNoParent l
    → HasNoParent (cons_first c l)
unfolding first
cons_first-HasNoParent c [] h rest = (not_parent (str_cons c empty) "" h, tt)
cons_first-HasNoParent c (s ∷ l) h rest = (not_parent (str_cons c s) "" h, rest.1)

-- A path without ".." in it has no segment that is the parent directory.
pub segments-HasNoParent : (s : String) → includes s ".." ≡ false → HasNoParent (segments s)
unfolding first
segments-HasNoParent empty h = (refl, tt)
segments-HasNoParent (str_cons c s) h =
    let rest : HasNoParent (segments s) = segments-HasNoParent s (ground (arith, h)) in
    if-intro HasNoParent (code c == b'/') (λ _. (refl, rest))
      (λ e.
        cons_first-HasNoParent c (segments s)
          (elim (Bool-cases (starts_with (str_cons c (first (segments s))) "..")) [
            | inl starts ↦
                let whole : starts_with (first (segments (str_cons c s))) ".." ≡ true = rw e (
                  subst (λ t. starts_with t ".." ≡ true) (sym (first-cons_first c (segments s)))
                    starts) in
                absurd (false≢true (sym h ∙ ground (arith, first-starts (str_cons c s) ".." whole)))
            | inr free ↦ free
          ])
          rest)

-- Blocked patterns

abbrev pub IsUnblocked : List String → String → Type 0
IsUnblocked real pattern = is_blocked_by real pattern ≡ false

pub matches_blocked_pattern-none :
    (real patterns : List String)
    → is_some (matches_blocked_pattern real patterns) ≡ false
    → All (IsUnblocked real) patterns
unfolding matches_blocked_pattern
matches_blocked_pattern-none real [] h = tt
matches_blocked_pattern-none real (p ∷ ps) h =
    if-intro (λ (o : Option String). is_some o ≡ false → All (IsUnblocked real) (p ∷ ps))
      (is_blocked_by real p) (λ _ e. absurd (false≢true (sym e)))
      (λ free e. (free, matches_blocked_pattern-none real ps e)) h

pub All-is_one_of :
    (real patterns : List String) (p : String)
    → All (IsUnblocked real) patterns
    → is_one_of patterns p ≡ true
    → IsUnblocked real p
All-is_one_of real [] p h e = absurd (false≢true e)
All-is_one_of real (q ∷ qs) p h e = elim (Bool-cases (str_eq q p)) [
  | inl same ↦ subst (IsUnblocked real) ((str_eq_iff q p).0 same) h.0
  | inr other ↦ All-is_one_of real qs p h.1 (ground (arith, other, e))
]

is_one_of-append :
    (xs : List String) (y p : String) → is_one_of xs p ≡ true → is_one_of (xs ++ y ∷ []) p ≡ true
is_one_of-append [] y p h = absurd (false≢true h)
is_one_of-append (x ∷ xs) y p h = ground (arith, h, is_one_of-append xs y p)

pub is_one_of-union :
    (xs ys : List String) (p : String) → is_one_of xs p ≡ true → is_one_of (union xs ys) p ≡ true
unfolding union
is_one_of-union xs [] p h = h
is_one_of-union xs (y ∷ ys) p h =
    is_one_of-union (if is_one_of xs y then xs else xs ++ y ∷ []) ys p (
      if-intro (λ zs. is_one_of zs p ≡ true) (is_one_of xs y) (λ _. h)
        (λ _. is_one_of-append xs y p h))

is_one_of-All : (xs : List String) → All (λ p. is_one_of xs p ≡ true) xs
is_one_of-All [] = tt
is_one_of-All (x ∷ xs) = (
  ground (arith, str_eq_refl x),
  All-weaken (λ p. is_one_of xs p ≡ true) (λ p. is_one_of (x ∷ xs) p ≡ true)
      (λ p e. ground (arith, e)) xs (is_one_of-All xs),
)

-- the default patterns are among those of a list
abbrev pub HasDefaults : Option MountAllowlist → Type 0
HasDefaults none = Unit
HasDefaults (some list) =
    All (λ p. is_one_of list.blocked_patterns p ≡ true) default_blocked_patterns

pub merged-HasDefaults : (raw : MountAllowlist) → HasDefaults (some (merged raw))
merged-HasDefaults raw =
    All-weaken (λ p. is_one_of default_blocked_patterns p ≡ true)
      (λ p. is_one_of (union default_blocked_patterns raw.blocked_patterns) p ≡ true)
      (λ p e. is_one_of-union default_blocked_patterns raw.blocked_patterns p e)
      default_blocked_patterns (is_one_of-All default_blocked_patterns)

pub HasDefaults-IsUnblocked :
    (real : List String) (list : MountAllowlist)
    → HasDefaults (some list)
    → All (IsUnblocked real) list.blocked_patterns
    → All (IsUnblocked real) default_blocked_patterns
HasDefaults-IsUnblocked real list defaults free =
    All-weaken (λ p. is_one_of list.blocked_patterns p ≡ true) (IsUnblocked real)
      (λ p e. All-is_one_of real list.blocked_patterns p free e) default_blocked_patterns defaults
