-- ===== src/Central/Names.antt =====
-- `normalizeName` of src/modules/agent-to-agent/db/agent-destinations.ts, and the decimal numerals
-- that a template string prints.
use Prim.Native.Char.{Char, code}
use Prim.Native.String.{[], ◌∷◌}
use clawie.Prelude.{
  ℕ, zero, suc, ◌/◌, ◌%◌, String, Bool, true, false, ◌&&◌, ◌||◌, if◌then◌else◌, leb, ◌==◌, str_eq,
  ◌≡◌, refl,
}

-- the character of `to` at the place that `c` has in `from`
abbrev transliterate : String → String → Char → Char
transliterate (f ∷ from) (t ∷ to) c =
    let rest = transliterate from to c in if code f == code c then t else rest
transliterate _ _ c = c

-- the lower case of the ASCII letters
unfoldable pub to_lower : String → String
to_lower [] = []
to_lower (c ∷ s) =
    transliterate "ABCDEFGHIJKLMNOPQRSTUVWXYZ" "abcdefghijklmnopqrstuvwxyz" c ∷ to_lower s

-- [a-z0-9]
abbrev pub is_slug_char : Char → Bool
is_slug_char c = leb 97 (code c) && leb (code c) 122 || leb 48 (code c) && leb (code c) 57

abbrev dash : Char
dash = "-"

-- .replace(/[^a-z0-9]+/g, '-'), where `in_run` says that the last character was replaced
unfoldable pub replace_runs : Bool → String → String
replace_runs in_run [] = []
replace_runs in_run (c ∷ s) =
    let kept = c ∷ replace_runs false s in
    let rest = replace_runs true s in
    if is_slug_char c then kept else if in_run then rest else dash ∷ rest

-- .replace(/^-+|-+$/g, '')
unfoldable pub strip_leading : String → String
strip_leading [] = []
strip_leading (c ∷ s) = let rest = strip_leading s in if code c == code dash then rest else c ∷ s

unfoldable pub strip_trailing : String → String
strip_trailing [] = []
strip_trailing (c ∷ s) =
    let rest = strip_trailing s in if code c == code dash && str_eq rest "" then [] else c ∷ rest

unfoldable pub normalize_name : String → String
unfolding to_lower replace_runs strip_leading strip_trailing
normalize_name name =
    let slug = strip_trailing (strip_leading (replace_runs false (to_lower name))) in
    if str_eq slug "" then "unnamed" else slug

-- .slice(0, n)
unfoldable pub first_chars : ℕ → String → String
first_chars zero s = []
first_chars (suc n) [] = []
first_chars (suc n) (c ∷ s) = c ∷ first_chars n s

abbrev pub digit_at : String → ℕ → Char
digit_at [] n = dash
digit_at (c ∷ s) zero = c
digit_at (c ∷ s) (suc n) = digit_at s n

-- the digits of n before those of `rest`; a numeral has at most as many digits as its value, and
-- one more round for 0
unfoldable pub print_decimal : ℕ → ℕ → String → String
print_decimal zero n rest = rest
print_decimal (suc fuel) n rest =
    let text = digit_at "0123456789" (n % 10) ∷ rest in
    let more = print_decimal fuel (n / 10) text in if n / 10 == 0 then text else more

unfoldable pub decimal : ℕ → String
unfolding print_decimal
decimal n = print_decimal (suc n) n ""

normalize_example : str_eq (normalize_name "  Family Chat (2024)! ") "family-chat-2024" ≡ true
unfolding normalize_name
normalize_example = refl

decimal_example : str_eq (decimal 1207) "1207" ≡ true
unfolding decimal
decimal_example = refl
