-- ===== src/Paths.antt =====
-- Texts as paths, the names that src/attachment-safety.ts, src/attachment-naming.ts and
-- src/group-folder.ts let into one, and the platform ids of src/platform-id.ts.
pub mod Inside
use Prim.Native.Char.{Char, code}
use Prim.Native.String.{[] as empty, ◌∷◌ as str_cons, ◌++◌ as str_append}
use clawie.Prelude.{
  ℕ, zero, suc, String, Bool, true, false, not, ◌&&◌, ◌||◌, Option, none, some, List, [], ◌∷◌,
  str_eq, if◌then◌else◌, leb, ◌==◌, or_else, is_one_of,
}
use clawie.Json.{Value, Fields, text, lookup, as_string, object}
use clawie.Central.Names.{to_lower, decimal}
use clawie.CommandGate.{trim_start, trim_end, is_space}

-- s.startsWith(prefix)
abbrev pub starts_with : String → String → Bool
starts_with s empty = true
starts_with empty (str_cons c prefix) = false
starts_with (str_cons d s) (str_cons c prefix) = code d == code c && starts_with s prefix

-- s.includes(part)
abbrev pub includes : String → String → Bool
includes empty part = starts_with empty part
includes (str_cons c s) part = starts_with (str_cons c s) part || includes s part

abbrev pub cons_first : Char → List String → List String
cons_first c [] = str_cons c empty ∷ []
cons_first c (s ∷ rest) = str_cons c s ∷ rest

-- a character before the first of two texts
abbrev pub cons_prefix : Char → Option (String × String) → Option (String × String)
cons_prefix c none = none
cons_prefix c (some (prefix, handle)) = some (str_cons c prefix, handle)

-- s.split('/')
abbrev pub segments : String → List String
segments empty = "" ∷ []
segments (str_cons c s) =
    let rest = segments s in if code c == b'/' then "" ∷ rest else cons_first c rest

abbrev pub last_non_empty : List String → String → String
last_non_empty [] found = found
last_non_empty (s ∷ rest) found = last_non_empty rest (if str_eq s "" then found else s)

-- path.basename(s), where slashes at the end do not count
abbrev pub basename : String → String
basename s = last_non_empty (segments s) ""

-- /[\\/\0]/
abbrev pub has_separator : String → Bool
has_separator empty = false
has_separator (str_cons c s) = code c == b'/' || code c == b'\\' || code c == 0 || has_separator s

unfoldable pub is_safe_attachment_name : String → Bool
is_safe_attachment_name name =
    if str_eq name ""
    then false
    else if str_eq name "." || str_eq name ".."
    then false
    else if has_separator name
    then false
    else str_eq (basename name) name

-- The maps of src/attachment-naming.ts; a key that every JavaScript object inherits is not modelled.
abbrev pub mime_to_ext : List (String × String)
mime_to_ext =
    ("image/jpeg", "jpg")
    ∷ ("image/png", "png")
    ∷ ("image/webp", "webp")
    ∷ ("image/gif", "gif")
    ∷ ("image/heic", "heic")
    ∷ ("audio/ogg", "ogg")
    ∷ ("audio/mpeg", "mp3")
    ∷ ("audio/wav", "wav")
    ∷ ("audio/mp4", "m4a")
    ∷ ("video/mp4", "mp4")
    ∷ ("video/webm", "webm")
    ∷ ("video/quicktime", "mov")
    ∷ ("application/pdf", "pdf")
    ∷ ("text/plain", "txt")
    ∷ ("application/json", "json")
    ∷ ("application/zip", "zip")
    ∷ []

abbrev pub type_to_ext : List (String × String)
type_to_ext =
    ("image", "jpg")
    ∷ ("photo", "jpg")
    ∷ ("sticker", "webp")
    ∷ ("voice", "ogg")
    ∷ ("audio", "mp3")
    ∷ ("video", "mp4")
    ∷ ("animation", "mp4")
    ∷ []

-- map[key] ?? ''
abbrev pub ext_in : List (String × String) → String → String
ext_in [] key = ""
ext_in ((k, v) ∷ rest) key = if str_eq k key then v else ext_in rest key

-- .split(';')[0]
unfoldable pub before_semicolon : String → String
before_semicolon empty = empty
before_semicolon (str_cons c s) =
    let rest = before_semicolon s in if code c == b';' then empty else str_cons c rest

unfoldable pub ext_for_mime : Option Value → String
unfolding before_semicolon trim_start trim_end to_lower
ext_for_mime mime = elim (as_string mime) [
  | none ↦ ""
  | some s ↦ ext_in mime_to_ext (to_lower (trim_end (trim_start (before_semicolon s))))
]

abbrev pub ext_of : Fields → String
ext_of att =
    let by_type : String = elim (as_string (lookup "type" att)) [
      | none ↦ ""
      | some t ↦ ext_in type_to_ext (to_lower t)
    ] in
    let by_mime = ext_for_mime (lookup "mimeType" att) in
    if str_eq by_mime "" then by_type else by_mime

abbrev pub derived_name : ℕ → String → String
derived_name now ext =
    let stem = str_append "attachment-" (decimal now) in
    if str_eq ext "" then stem else str_append stem (str_append "." ext)

unfoldable pub derive_attachment_name : ℕ → Fields → String
unfolding ext_for_mime to_lower decimal
derive_attachment_name now att = elim (as_string (lookup "name" att)) [
  | none ↦ derived_name now (ext_of att)
  | some explicit ↦ if str_eq explicit "" then derived_name now (ext_of att) else explicit
]

-- the file that `extractAttachmentFiles` writes an attachment to
unfoldable pub stored_name : ℕ → ℕ → Fields → String
unfolding derive_attachment_name is_safe_attachment_name decimal
stored_name earlier now att =
    let raw = derive_attachment_name earlier att in
    if is_safe_attachment_name raw then raw else str_append "attachment-" (decimal now)

abbrev pub is_alphanumeric : Char → Bool
is_alphanumeric c =
    leb b'0' (code c) && leb (code c) b'9'
    || leb b'a' (code c) && leb (code c) b'z'
    || leb b'A' (code c) && leb (code c) b'Z'

-- /^[A-Za-z0-9_-]{0,n}$/
abbrev pub is_folder_rest : ℕ → String → Bool
is_folder_rest n empty = true
is_folder_rest zero (str_cons c s) = false
is_folder_rest (suc n) (str_cons c s) =
    (is_alphanumeric c || code c == b'_' || code c == b'-') && is_folder_rest n s

-- /^[A-Za-z0-9][A-Za-z0-9_-]{0,63}$/
abbrev pub is_folder_name : String → Bool
is_folder_name empty = false
is_folder_name (str_cons c s) = is_alphanumeric c && is_folder_rest 63 s

unfoldable pub is_valid_group_folder : String → Bool
unfolding trim_start trim_end to_lower
is_valid_group_folder folder =
    if str_eq folder ""
    then false
    else if not (str_eq folder (trim_end (trim_start folder)))
    then false
    else if not (is_folder_name folder)
    then false
    else if includes folder "/" || includes folder "\\"
    then false
    else if includes folder ".."
    then false
    else not (str_eq (to_lower folder) "global")

unfoldable pub namespaced_platform_id : String → String → String
namespaced_platform_id channel raw =
    if starts_with raw (str_append channel ":")
    then raw
    else if includes raw "@"
    then raw
    else if starts_with raw "+" || starts_with raw "group:"
    then raw
    else if str_eq channel "deltachat"
    then raw
    else str_append channel (str_append ":" raw)
