-- ===== src/MountSecurity/Granted.antt =====
-- What src/modules/mount-security/index.ts grants to a container that asks for several mounts.
use mathlib.Core.Path.{subst}
use mathlib.Core.Option.{some-injective}
use mathlib.Core.List.{Memᴰ}
use clawie.Prelude.{
  Option, none, some, List, [], ◌∷◌, ◌≡◌, refl, sym, ap, ◌∙◌, inl, inr, ◌⊎◌, if-intro, is_some, All,
  All-weaken, false≢true,
}
use clawie.MountSecurity.{
  AdditionalMount, MountAllowlist, AllowlistFile, absent, broken, readable, AllowlistCache, merged,
  default_blocked_patterns, read_allowlist, load_from, load_mount_allowlist, Files, ValidMount,
  check_mount, check_with, validate_mount, mount_at, keep_mount, validate_additional_mounts,
}
use clawie.MountSecurity.Patterns.{
  IsUnblocked, HasDefaults, merged-HasDefaults, HasDefaults-IsUnblocked,
}
use clawie.MountSecurity.Allowed.{IsAllowed, check_mount-IsAllowed}

-- a list that the process has, or that it reads and adds the default patterns to
abbrev pub IsListed : AllowlistFile → AllowlistCache → MountAllowlist → Type 0
IsListed file cache list =
    (cache.cached_allowlist ≡ some list)
    ⊎ ((raw : MountAllowlist) × (file ≡ readable raw) × (list ≡ merged raw))

-- what is loaded, and what the process has from then on
abbrev Loads : AllowlistFile → AllowlistCache → AllowlistCache × Option MountAllowlist → Type 0
Loads file cache (after, result) =
    ((list : MountAllowlist) → result ≡ some list → IsListed file cache list)
    × ((list : MountAllowlist) → after.cached_allowlist ≡ some list → IsListed file cache list)

read_allowlist-Loads :
    (file : AllowlistFile) (cache : AllowlistCache) → Loads file cache (read_allowlist file cache)
unfolding read_allowlist
read_allowlist-Loads absent cache = (λ list e. absurd (false≢true (ap is_some e)), λ list e. inl e)
read_allowlist-Loads broken cache = (λ list e. absurd (false≢true (ap is_some e)), λ list e. inl e)
read_allowlist-Loads (readable raw) cache =
    let own = λ (list : MountAllowlist) (e : some (merged raw) ≡ some list).
      inr (raw, refl, sym (some-injective (merged raw) list e)) in
    (own, own)

load_mount_allowlist-Loads :
    (file : AllowlistFile) (cache : AllowlistCache)
    → Loads file cache (load_mount_allowlist file cache)
unfolding load_mount_allowlist
load_mount_allowlist-Loads file cache = by_cache cache.cached_allowlist refl
  where
    by_cache :
        (o : Option MountAllowlist)
        → cache.cached_allowlist ≡ o
        → Loads file cache (load_from file cache o)
    by_cache none e =
        if-intro (Loads file cache) cache.load_failed
          (λ _. (λ list e'. absurd (false≢true (ap is_some e')), λ list e'. inl e'))
          (λ _. read_allowlist-Loads file cache)
    by_cache (some list) e = (λ list' e'. inl (e ∙ e'), λ list' e'. inl e')

IsListed-HasDefaults :
    (file : AllowlistFile) (cache : AllowlistCache) (list : MountAllowlist)
    → HasDefaults cache.cached_allowlist
    → IsListed file cache list
    → HasDefaults (some list)
IsListed-HasDefaults file cache list defaults (inl e) = subst HasDefaults e defaults
IsListed-HasDefaults file cache list defaults (inr (raw, _, e)) =
    subst (λ l. HasDefaults (some l)) (sym e) (merged-HasDefaults raw)

-- a mount of a container that one of the mounts asked for led to
pub record IsGranted (files : Files) (file : AllowlistFile) (cache : AllowlistCache)
    (mounts : List AdditionalMount) (m : ValidMount) : Type 0 where
  pub mount : AdditionalMount
  pub asked : Memᴰ mount mounts
  pub list : MountAllowlist
  pub listed : IsListed file cache list
  pub valid : ValidMount
  pub allowed : IsAllowed files list mount valid
  pub safe : All (IsUnblocked valid.host_path) default_blocked_patterns
  pub same : m ≡ mount_at valid

module _ (files : Files) (file : AllowlistFile) (cache : AllowlistCache) where
  keep_mount-All :
      (mount : AdditionalMount) (mounts : List AdditionalMount) (ms : List ValidMount)
      (list : Option MountAllowlist)
      → HasDefaults cache.cached_allowlist
      → ((l : MountAllowlist) → list ≡ some l → IsListed file cache l)
      → All (IsGranted files file cache (mount ∷ mounts)) ms
      → All
          (IsGranted files file cache (mount ∷ mounts))
          (keep_mount (check_with files list mount) ms)
  keep_mount-All mount mounts ms none defaults listed rest = rest
  keep_mount-All mount mounts ms (some l) defaults listed rest =
      kept (check_mount files l mount) refl
    where
      kept :
          (o : Option ValidMount)
          → check_mount files l mount ≡ o
          → All (IsGranted files file cache (mount ∷ mounts)) (keep_mount o ms)
      kept none e = rest
      kept (some v) e =
          let allowed = check_mount-IsAllowed files l mount e in
          (
            record {
              mount = mount;
              asked = Memᴰ.head refl;
              list = l;
              listed = listed l refl;
              valid = v;
              allowed = allowed;
              safe =
                  HasDefaults-IsUnblocked v.host_path l
                    (IsListed-HasDefaults file cache l defaults (listed l refl)) allowed.unblocked;
              same = refl;
            },
            rest,
          )

later-IsGranted :
    (files : Files) (file : AllowlistFile) (cache loaded : AllowlistCache) (mount : AdditionalMount)
    (mounts : List AdditionalMount) (m : ValidMount)
    → ((l : MountAllowlist) → IsListed file loaded l → IsListed file cache l)
    → IsGranted files file loaded mounts m
    → IsGranted files file cache (mount ∷ mounts) m
later-IsGranted files file cache loaded mount mounts m back g = record {
  mount = g.mount;
  asked = Memᴰ.tail g.asked;
  list = g.list;
  listed = back g.list g.listed;
  valid = g.valid;
  allowed = g.allowed;
  safe = g.safe;
  same = g.same;
}

loaded-HasDefaults :
    (file : AllowlistFile) (cache : AllowlistCache) (o : Option MountAllowlist)
    → HasDefaults cache.cached_allowlist
    → ((l : MountAllowlist) → o ≡ some l → IsListed file cache l)
    → HasDefaults o
loaded-HasDefaults file cache none defaults listed = tt
loaded-HasDefaults file cache (some l) defaults listed =
    IsListed-HasDefaults file cache l defaults (listed l refl)

-- Where a list that the process already has blocks the default patterns, each mount that a container
-- gets comes from one that was asked for. Its host directory is the real path of that one, and is
-- a root of the list or below it; no pattern of the list, and none of the default ones, occurs in it.
-- Its place is /workspace/extra or below it, with a path that is not blank and has no parent step in
-- it, and it can be written to only if that was asked for and the root allows it. The list is the one that the process had, or the file's with the default patterns.
pub validate_additional_mounts-IsGranted :
    (files : Files) (file : AllowlistFile) (cache : AllowlistCache) (mounts : List AdditionalMount)
    → HasDefaults cache.cached_allowlist
    → All (IsGranted files file cache mounts) (validate_additional_mounts files file cache mounts).1
unfolding validate_additional_mounts validate_mount
validate_additional_mounts-IsGranted files file cache [] defaults = tt
validate_additional_mounts-IsGranted files file cache (mount ∷ mounts) defaults =
    let (loaded, list) = load_mount_allowlist file cache in
    let (listed, kept) = load_mount_allowlist-Loads file cache in
    let back : (l : MountAllowlist) → IsListed file loaded l → IsListed file cache l =
      λ l h. elim h [ inl e ↦ kept l e | inr own ↦ inr own ] in
    let rest =
      validate_additional_mounts-IsGranted files file loaded mounts
        (loaded-HasDefaults file cache loaded.cached_allowlist defaults kept) in
    keep_mount-All files file cache mount mounts
      (validate_additional_mounts files file loaded mounts).1 list defaults listed
      (All-weaken (IsGranted files file loaded mounts) (IsGranted files file cache (mount ∷ mounts))
        (λ m g. later-IsGranted files file cache loaded mount mounts m back g)
        (validate_additional_mounts files file loaded mounts).1 rest)
