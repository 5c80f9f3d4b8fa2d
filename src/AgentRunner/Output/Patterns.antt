-- ===== src/AgentRunner/Output/Patterns.antt =====
-- The regular expressions of `dispatchResultText` and `stripInternalTags`, over a text.
use Prim.Native.Char.{Char, code}
use Prim.Native.String.{[] as empty, ◌∷◌ as str_cons}
use clawie.Prelude.{
  ℕ, zero, suc, String, Bool, false, Option, none, some, List, [], ◌∷◌, if◌then◌else◌, str_eq, ◌==◌,
}
use clawie.CommandGate.{trim_start, trim_end, is_space}
use clawie.Paths.{cons_prefix}

-- what follows a prefix
abbrev pub after_prefix : String → String → Option String
after_prefix empty s = some s
after_prefix (str_cons c prefix) empty = none
after_prefix (str_cons c prefix) (str_cons d s) =
    let rest = after_prefix prefix s in if code d == code c then rest else none

abbrev pub or_until : Option String → Char → Option (String × String) → Option (String × String)
or_until (some after) c rest = some (empty, after)
or_until none c rest = cons_prefix c rest

-- the texts before and after the first occurrence of a marker that is not empty
abbrev pub until : String → String → Option (String × String)
until marker empty = none
until marker (str_cons c s) = or_until (after_prefix marker (str_cons c s)) c (until marker s)

pub record Block : Type 0 where
  pub to_name : String
  pub body : String
  pub rest : String

abbrev pub starts_with_space : String → Bool
starts_with_space empty = false
starts_with_space (str_cons c s) = is_space c

abbrev pub with_body : String → Option (String × String) → Option Block
with_body name none = none
with_body name (some (body, rest)) = some (record { to_name = name; body = body; rest = rest })

-- \s*>([\s\S]*?)<\/message>
abbrev pub match_body : String → Option String → Option Block
match_body name none = none
match_body name (some s) = with_body name (until "</message>" s)

-- ([^"]+)"
abbrev pub match_name : Option (String × String) → Option Block
match_name none = none
match_name (some (name, s)) =
    if str_eq name "" then none else match_body name (after_prefix ">" (trim_start s))

abbrev pub match_to : Option String → Option Block
match_to none = none
match_to (some s) = match_name (until "\"" s)

-- \s+to="
abbrev pub match_space : Option String → Option Block
match_space none = none
match_space (some s) =
    if starts_with_space s then match_to (after_prefix "to=\"" (trim_start s)) else none

-- MESSAGE_RE at the start of a text
unfoldable pub match_block : String → Option Block
unfolding trim_start
match_block s = match_space (after_prefix "<message" s)

-- The text as the loop goes over it.
pub data Piece : Type 0 where
  outside : Char → Piece
  block : String → String → Piece

abbrev pub text_length : String → ℕ
text_length empty = 0
text_length (str_cons c s) = suc (text_length s)

abbrev pub next_piece : Char → String → (String → List Piece) → Option Block → List Piece
next_piece c s others none = outside c ∷ others s
next_piece c s others (some b) = block b.to_name b.body ∷ others b.rest

unfoldable pub pieces : ℕ → String → List Piece
unfolding match_block
pieces zero s = []
pieces (suc fuel) empty = []
pieces (suc fuel) (str_cons c s) = next_piece c s (pieces fuel) (match_block (str_cons c s))

abbrev pub after_internal : Option (String × String) → Option String
after_internal none = none
after_internal (some (hidden, rest)) = some rest

abbrev pub match_internal : Option String → Option String
match_internal none = none
match_internal (some s) = after_internal (until "</internal>" s)

abbrev pub next_char : Char → String → (String → String) → Option String → String
next_char c s others none = str_cons c (others s)
next_char c s others (some rest) = others rest

unfoldable pub drop_internal : ℕ → String → String
drop_internal zero s = empty
drop_internal (suc fuel) empty = empty
drop_internal (suc fuel) (str_cons c s) =
    next_char c s (drop_internal fuel) (match_internal (after_prefix "<internal>" (str_cons c s)))

unfoldable pub strip_internal_tags : String → String
unfolding drop_internal trim_start trim_end
strip_internal_tags s = trim_end (trim_start (drop_internal (text_length s) s))
