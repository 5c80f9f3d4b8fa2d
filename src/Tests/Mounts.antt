-- ===== src/Tests/Mounts.antt =====
-- The theorem of MountSecurity at a container that asks for two mounts, one of them with keys in it.
use clawie.Prelude.{
  String, true, false, none, some, List, [], ◌∷◌, ◌≡◌, refl, if◌then◌else◌, str_eq, All,
}
use clawie.MountSecurity.{
  AdditionalMount, AllowlistFile, readable, AllowlistCache, Files, validate_additional_mounts,
}
use clawie.MountSecurity.Granted.{IsGranted, validate_additional_mounts-IsGranted}

abbrev files : Files
files = record {
  home_dir = "/home/ann";
  join = λ dir name. if str_eq name "projects" then "/home/ann/projects" else "/home/ann/other";
  resolve = λ p. p;
  real_path = λ p.
      if str_eq p "/home/ann/projects"
      then some ("home" ∷ "ann" ∷ "projects" ∷ [])
      else if str_eq p "/home/ann/projects/site"
      then some ("home" ∷ "ann" ∷ "projects" ∷ "site" ∷ [])
      else if str_eq p "/home/ann/projects/keys"
      then some ("home" ∷ "ann" ∷ "projects" ∷ ".ssh" ∷ [])
      else none;
}

abbrev file : AllowlistFile
file = readable (record {
  allowed_roots = record { root_path = "~/projects"; allow_read_write = true } ∷ [];
  blocked_patterns = "token" ∷ [];
})

abbrev fresh : AllowlistCache
fresh = record { cached_allowlist = none; load_failed = false }

abbrev asks : String → AdditionalMount
asks p = record { host_path = p; container_path = none; readonly = some false }

abbrev mounts : List AdditionalMount
mounts = asks "/home/ann/projects/site" ∷ asks "/home/ann/projects/keys" ∷ []

-- The first is mounted to be written to, the second is not mounted.
site_mounted :
    (validate_additional_mounts files file fresh mounts).1
    ≡ record {
      host_path = "home" ∷ "ann" ∷ "projects" ∷ "site" ∷ [];
      container_path = "/workspace/extra/site";
      readonly = false;
    }
      ∷ []
unfolding validate_additional_mounts
site_mounted = refl

validate_additional_mounts-IsGranted_example :
    All (IsGranted files file fresh mounts) (validate_additional_mounts files file fresh mounts).1
validate_additional_mounts-IsGranted_example =
    validate_additional_mounts-IsGranted files file fresh mounts tt
