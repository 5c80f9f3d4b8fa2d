-- ===== src/MountSecurity.antt =====
-- src/modules/mount-security/index.ts: which directories of the host a container may mount. A real
-- path is the list of its segments, as `realpath` gives it; the entries of the allowlist have the
-- types that the source declares.
pub mod Patterns
pub mod Allowed
pub mod Granted
use Prim.Native.String.{[] as empty, ◌∷◌ as str_cons, ◌++◌ as str_append}
use clawie.Prelude.{
  String, Bool, true, false, not, ◌&&◌, ◌||◌, Option, none, some, List, [], ◌∷◌, ◌++◌, str_eq,
  if◌then◌else◌, or_else, is_one_of, exists, is_some,
}
use clawie.CommandGate.{trim_start, trim_end}
use clawie.Paths.{starts_with, includes, basename}

pub record AdditionalMount : Type 0 where
  pub host_path : String
  pub container_path : Option String
  pub readonly : Option Bool

pub record AllowedRoot : Type 0 where
  pub root_path : String
  pub allow_read_write : Bool

pub record MountAllowlist : Type 0 where
  pub allowed_roots : List AllowedRoot
  pub blocked_patterns : List String

abbrev pub default_blocked_patterns : List String
default_blocked_patterns =
    ".ssh" ∷ ".gnupg" ∷ ".gpg" ∷ ".aws" ∷ ".azure" ∷ ".gcloud" ∷ ".kube" ∷ ".docker" ∷ "credentials"
    ∷ ".env" ∷ ".netrc" ∷ ".npmrc" ∷ ".pypirc" ∷ "id_rsa" ∷ "id_ed25519" ∷ "private_key" ∷ ".secret"
    ∷ []

-- The file of the allowlist: missing, unreadable or of another structure, or read.
pub data AllowlistFile : Type 0 where
  absent broken : AllowlistFile
  readable : MountAllowlist → AllowlistFile

-- The module's two variables.
pub record AllowlistCache : Type 0 where
  pub cached_allowlist : Option MountAllowlist
  pub load_failed : Bool

-- new Set([...xs, ...ys]), after xs
unfoldable pub union : List String → List String → List String
union xs [] = xs
union xs (y ∷ ys) = union (if is_one_of xs y then xs else xs ++ y ∷ []) ys

abbrev pub merged : MountAllowlist → MountAllowlist
merged list = record list {
  blocked_patterns = union default_blocked_patterns list.blocked_patterns;
}

unfoldable pub read_allowlist :
    AllowlistFile → AllowlistCache → AllowlistCache × Option MountAllowlist
unfolding union
read_allowlist absent cache = (cache, none)
read_allowlist broken cache = (record cache { load_failed = true }, none)
read_allowlist (readable list) cache =
    (record cache { cached_allowlist = some (merged list) }, some (merged list))

abbrev pub load_from :
    AllowlistFile → AllowlistCache → Option MountAllowlist → AllowlistCache × Option MountAllowlist
load_from file cache none = if cache.load_failed then (cache, none) else read_allowlist file cache
load_from file cache (some list) = (cache, some list)

unfoldable pub load_mount_allowlist :
    AllowlistFile → AllowlistCache → AllowlistCache × Option MountAllowlist
unfolding read_allowlist
load_mount_allowlist file cache = load_from file cache cache.cached_allowlist

-- What the process and the file system answer: the home directory, path.join, path.resolve, and
-- fs.realpath, which is `none` where it throws.
pub record Files : Type 0 where
  pub home_dir : String
  pub join : String → String → String
  pub resolve : String → String
  pub real_path : String → Option (List String)

abbrev drop_two : String → String
drop_two (str_cons a (str_cons b s)) = s
drop_two s = empty

unfoldable pub expand_path : Files → String → String
expand_path files p =
    if starts_with p "~/"
    then files.join files.home_dir (drop_two p)
    else if str_eq p "~"
    then files.home_dir
    else files.resolve p

-- the text of a real path
abbrev pub path_text : List String → String
path_text [] = "/"
path_text (s ∷ []) = str_append "/" s
path_text (s ∷ rest) = str_append "/" (str_append s (path_text rest))

abbrev pub some_includes : List String → String → Bool
some_includes [] pattern = false
some_includes (part ∷ parts) pattern =
    str_eq part pattern || includes part pattern || some_includes parts pattern

-- `pathParts` starts with the empty text before the first slash
abbrev pub is_blocked_by : List String → String → Bool
is_blocked_by real pattern = some_includes ("" ∷ real) pattern || includes (path_text real) pattern

unfoldable pub matches_blocked_pattern : List String → List String → Option String
matches_blocked_pattern real [] = none
matches_blocked_pattern real (pattern ∷ patterns) =
    if is_blocked_by real pattern then some pattern else matches_blocked_pattern real patterns

-- !path.relative(root, real).startsWith('..'), for two real paths
abbrev pub is_under : List String → List String → Bool
is_under [] [] = true
is_under [] (s ∷ rest) = not (starts_with s "..")
is_under (r ∷ root) [] = false
is_under (r ∷ root) (s ∷ rest) = str_eq r s && is_under root rest

abbrev pub is_in_root : Files → List String → AllowedRoot → Bool
is_in_root files real root = elim (files.real_path (expand_path files root.root_path)) [
  | none ↦ false
  | some real_root ↦ is_under real_root real
]

unfoldable pub find_allowed_root : Files → List String → List AllowedRoot → Option AllowedRoot
unfolding expand_path
find_allowed_root files real [] = none
find_allowed_root files real (root ∷ roots) =
    if is_in_root files real root then some root else find_allowed_root files real roots

unfoldable pub is_valid_container_path : String → Bool
unfolding trim_start trim_end
is_valid_container_path p =
    if includes p ".."
    then false
    else if starts_with p "/"
    then false
    else if str_eq p "" || str_eq (trim_end (trim_start p)) ""
    then false
    else not (includes p ":")

-- A mount that was let through.
pub record ValidMount : Type 0 where
  pub host_path : List String
  pub container_path : String
  pub readonly : Bool

-- mount.containerPath || path.basename(mount.hostPath)
abbrev pub container_path_of : AdditionalMount → String
container_path_of mount = elim mount.container_path [
  | none ↦ basename mount.host_path
  | some p ↦ if str_eq p "" then basename mount.host_path else p
]

-- mount.readonly === false
abbrev pub asks_to_write : AdditionalMount → Bool
asks_to_write mount = elim mount.readonly [ none ↦ false | some r ↦ not r ]

abbrev pub valid_mount : AdditionalMount → List String → AllowedRoot → ValidMount
valid_mount mount real root = record {
  host_path = real;
  container_path = container_path_of mount;
  readonly = not (asks_to_write mount && root.allow_read_write);
}

abbrev pub under_root : AdditionalMount → List String → Option AllowedRoot → Option ValidMount
under_root mount real none = none
under_root mount real (some root) = some (valid_mount mount real root)

abbrev pub at_real_path :
    Files → MountAllowlist → AdditionalMount → Option (List String) → Option ValidMount
at_real_path files list mount none = none
at_real_path files list mount (some real) =
    if is_some (matches_blocked_pattern real list.blocked_patterns)
    then none
    else under_root mount real (find_allowed_root files real list.allowed_roots)

-- the checks after the allowlist is loaded; `none` is a mount that is not allowed
unfoldable pub check_mount : Files → MountAllowlist → AdditionalMount → Option ValidMount
unfolding is_valid_container_path expand_path matches_blocked_pattern find_allowed_root
check_mount files list mount =
    if not (is_valid_container_path (container_path_of mount))
    then none
    else at_real_path files list mount (files.real_path (expand_path files mount.host_path))

abbrev pub check_with : Files → Option MountAllowlist → AdditionalMount → Option ValidMount
check_with files none mount = none
check_with files (some list) mount = check_mount files list mount

unfoldable pub validate_mount :
    Files → AllowlistFile → AllowlistCache → AdditionalMount → AllowlistCache × Option ValidMount
unfolding load_mount_allowlist check_mount
validate_mount files file cache mount =
    let (after, list) = load_mount_allowlist file cache in (after, check_with files list mount)

abbrev pub mount_at : ValidMount → ValidMount
mount_at m = record m { container_path = str_append "/workspace/extra/" m.container_path }

abbrev pub keep_mount : Option ValidMount → List ValidMount → List ValidMount
keep_mount none rest = rest
keep_mount (some m) rest = mount_at m ∷ rest

unfoldable pub validate_additional_mounts :
    Files → AllowlistFile → AllowlistCache → List AdditionalMount → AllowlistCache × List ValidMount
unfolding validate_mount
validate_additional_mounts files file cache [] = (cache, [])
validate_additional_mounts files file cache (mount ∷ mounts) =
    let (loaded, result) = validate_mount files file cache mount in
    let (after, rest) = validate_additional_mounts files file loaded mounts in
    (after, keep_mount result rest)
