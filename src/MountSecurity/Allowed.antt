-- ===== src/MountSecurity/Allowed.antt =====
-- What src/modules/mount-security/index.ts lets a container mount.
use mathlib.Core.Path.{subst}
use mathlib.Core.Option.{some-injective}
use mathlib.Core.List.{Memᴰ}
use clawie.Prelude.{
  String, true, false, not, ◌&&◌, ◌||◌, Option, none, some, List, [], ◌∷◌, ◌≡◌, refl, sym, ap,
  arith, if-intro, is_some, All, false≢true, str_eq, str_eq_iff, ◌≢◌, ◌∙◌, ◌++◌,
}
use clawie.CommandGate.{trim_start, trim_end}
use clawie.Paths.{starts_with, includes, segments}
use clawie.MountSecurity.{
  AdditionalMount, AllowedRoot, MountAllowlist, Files, expand_path, matches_blocked_pattern,
  is_in_root, is_under, find_allowed_root, is_valid_container_path, ValidMount, container_path_of,
  asks_to_write, valid_mount, under_root, at_real_path, check_mount,
}
use clawie.MountSecurity.Patterns.{
  HasNoParent, segments-HasNoParent, IsUnblocked, matches_blocked_pattern-none,
}

find_allowed_root-Memᴰ :
    (files : Files) (real : List String) (roots : List AllowedRoot) {root : AllowedRoot}
    → find_allowed_root files real roots ≡ some root
    → Memᴰ root roots × (is_in_root files real root ≡ true)
unfolding find_allowed_root
find_allowed_root-Memᴰ files real [] e = absurd (false≢true (ap is_some e))
find_allowed_root-Memᴰ files real (r ∷ roots) {root} e =
    if-intro
      (λ (o : Option AllowedRoot).
        o ≡ some root → Memᴰ root (r ∷ roots) × (is_in_root files real root ≡ true))
      (is_in_root files real r)
      (λ inside e'.
        let same = some-injective r root e' in
        (Memᴰ.head (sym same), subst (λ x. is_in_root files real x ≡ true) same inside))
      (λ _ e'.
        let (member, inside) = find_allowed_root-Memᴰ files real roots e' in
        (Memᴰ.tail member, inside))
      e

-- a path that is not blank, and does not lead out of the directory that it is joined to
abbrev pub StaysInside : String → Type 0
StaysInside p =
    HasNoParent (segments p)
    × (starts_with p "/" ≡ false)
    × (includes p ":" ≡ false)
    × (p ≢ "")
    × (trim_end (trim_start p) ≢ "")

apart : (p : String) → str_eq p "" ≡ false → p ≢ ""
apart p e same = false≢true (sym e ∙ (str_eq_iff p "").1 same)

-- A path that is under a root is the root with more segments after it.
is_under-append :
    (root real : List String)
    → is_under root real ≡ true
    → (rest : List String) × (real ≡ root ++ rest)
is_under-append [] real e = (real, refl)
is_under-append (r ∷ root) [] e = absurd (false≢true e)
is_under-append (r ∷ root) (s ∷ real) e =
    let (rest, same) = is_under-append root real (ground (arith, e)) in
    (rest, cc (same, (str_eq_iff r s).0 (ground (arith, e))))

-- a real path that is a root of the list, or a path below it
abbrev pub IsBelowRoot : Files → List String → AllowedRoot → Type 0
IsBelowRoot files real root =
    (real_root : List String) × (files.real_path (expand_path files root.root_path)
      ≡ some real_root)
    × ((rest : List String) × (real ≡ real_root ++ rest))

is_in_root-IsBelowRoot :
    (files : Files) (real : List String) (root : AllowedRoot)
    → is_in_root files real root ≡ true
    → IsBelowRoot files real root
is_in_root-IsBelowRoot files real root e =
    by_root (files.real_path (expand_path files root.root_path)) refl e
  where
    by_root :
        (o : Option (List String))
        → files.real_path (expand_path files root.root_path) ≡ o
        → elim o [ none ↦ false | some real_root ↦ is_under real_root real ] ≡ true
        → IsBelowRoot files real root
    by_root none found e' = absurd (false≢true e')
    by_root (some real_root) found e' = (real_root, found, is_under-append real_root real e')

is_valid_container_path-StaysInside :
    (p : String) → is_valid_container_path p ≡ true → StaysInside p
unfolding is_valid_container_path
is_valid_container_path-StaysInside p valid =
    if-intro (λ b. b ≡ true → StaysInside p) (includes p "..") (λ _ e. absurd (false≢true e))
      (λ a.
        if-intro (λ b. b ≡ true → StaysInside p) (starts_with p "/") (λ _ e. absurd (false≢true e))
          (λ b.
            if-intro (λ b. b ≡ true → StaysInside p)
              (str_eq p "" || str_eq (trim_end (trim_start p)) "") (λ _ e. absurd (false≢true e))
              (λ blank e. (
                segments-HasNoParent p a,
                b,
                ground (arith, e),
                apart p (ground (arith, blank)),
                apart (trim_end (trim_start p)) (ground (arith, blank)),
              ))))
      valid

-- what a mount that is let through is
pub record IsAllowed (files : Files) (list : MountAllowlist) (mount : AdditionalMount)
    (m : ValidMount) : Type 0 where
  pub real : files.real_path (expand_path files mount.host_path) ≡ some m.host_path
  pub root : AllowedRoot
  pub listed : Memᴰ root list.allowed_roots
  pub inside : IsBelowRoot files m.host_path root
  pub unblocked : All (IsUnblocked m.host_path) list.blocked_patterns
  pub place : StaysInside m.container_path
  pub written : m.readonly ≡ not (asks_to_write mount && root.allow_read_write)

at_real_path-IsAllowed :
    (files : Files) (list : MountAllowlist) (mount : AdditionalMount) (o : Option (List String))
    {m : ValidMount}
    → files.real_path (expand_path files mount.host_path) ≡ o
    → StaysInside (container_path_of mount)
    → at_real_path files list mount o ≡ some m
    → IsAllowed files list mount m
at_real_path-IsAllowed files list mount none real place e = absurd (false≢true (ap is_some e))
at_real_path-IsAllowed files list mount (some path) {m} real place e =
    if-intro (λ (o : Option ValidMount). o ≡ some m → IsAllowed files list mount m)
      (is_some (matches_blocked_pattern path list.blocked_patterns))
      (λ _ e'. absurd (false≢true (ap is_some e')))
      (λ free.
        from_root (find_allowed_root files path list.allowed_roots) refl
          (matches_blocked_pattern-none path list.blocked_patterns free))
      e
  where
    from_root :
        (o : Option AllowedRoot)
        → find_allowed_root files path list.allowed_roots ≡ o
        → All (IsUnblocked path) list.blocked_patterns
        → under_root mount path o ≡ some m
        → IsAllowed files list mount m
    from_root none found free e' = absurd (false≢true (ap is_some e'))
    from_root (some root) found free e' =
        let (listed, inside) = find_allowed_root-Memᴰ files path list.allowed_roots found in
        subst (IsAllowed files list mount) (some-injective (valid_mount mount path root) m e')
          (record {
            real = real;
            root = root;
            listed = listed;
            inside = is_in_root-IsBelowRoot files path root inside;
            unblocked = free;
            place = place;
            written = refl;
          })

pub check_mount-IsAllowed :
    (files : Files) (list : MountAllowlist) (mount : AdditionalMount) {m : ValidMount}
    → check_mount files list mount ≡ some m
    → IsAllowed files list mount m
unfolding check_mount
check_mount-IsAllowed files list mount {m} e =
    if-intro (λ (o : Option ValidMount). o ≡ some m → IsAllowed files list mount m)
      (not (is_valid_container_path (container_path_of mount)))
      (λ _ e'. absurd (false≢true (ap is_some e')))
      (λ valid e'.
        at_real_path-IsAllowed files list mount
          (files.real_path (expand_path files mount.host_path)) refl
          (is_valid_container_path-StaysInside (container_path_of mount) (ground (arith, valid)))
          e')
      e
