-- ===== src/AgentRunner/Output/Blocks.antt =====
-- The regular expression of container/agent-runner/src/poll-loop.ts on a block that is well formed.
use Prim.Native.Char.{Char, code}
use Prim.Native.String.{[] as empty, ◌∷◌ as str_cons, ◌++◌ as str_append}
use text.Mathlib.TextLemmas.{cons-append, nil-append}
use clawie.Prelude.{
  String, Bool, false, ◌||◌, none, some, ◌≡◌, refl, sym, ap, ◌∙◌, inl, inr, arith, Bool-cases,
  str_eq, ◌==◌, false≢true,
}
use clawie.CommandGate.{trim_start}
use clawie.Paths.{starts_with, includes}
use clawie.AgentRunner.Output.{
  after_prefix, or_until, until, with_body, match_body, match_name, match_to, match_space,
  match_block,
}

-- what follows a prefix that was put before it
after_prefix-append : (p s : String) → after_prefix p (str_append p s) ≡ some s
after_prefix-append empty s = ap some (nil-append s)
after_prefix-append (str_cons c p) s =
    ap (after_prefix (str_cons c p)) (cons-append c p s) ∙ ground (arith, after_prefix-append p s)

abbrev has_char : Char → String → Bool
has_char c empty = false
has_char c (str_cons d s) = code c == code d || has_char c s

-- A text that does not start with a prefix does not start with it either when a character that is not
-- in the prefix follows.
after_prefix-cut :
    (c : Char) (p s t : String)
    → has_char c p ≡ false
    → starts_with s p ≡ false
    → after_prefix p (str_append s (str_cons c t)) ≡ none
after_prefix-cut c empty empty t free apart = absurd (false≢true (sym apart))
after_prefix-cut c empty (str_cons d s) t free apart = absurd (false≢true (sym apart))
after_prefix-cut c (str_cons e p) empty t free apart =
    ap (after_prefix (str_cons e p)) (nil-append (str_cons c t)) ∙ ground (arith, free)
after_prefix-cut c (str_cons e p) (str_cons d s) t free apart =
    ap (after_prefix (str_cons e p)) (cons-append d s (str_cons c t))
    ∙ ground (arith, free, apart, after_prefix-cut c p s t)

-- The text before the first marker, where its first character is not in it again.
until-append :
    (c : Char) (p s t : String)
    → has_char c p ≡ false
    → includes s (str_cons c p) ≡ false
    → until (str_cons c p) (str_append s (str_append (str_cons c p) t)) ≡ some (s, t)
until-append c p empty t free apart =
    let here : after_prefix (str_cons c p) (str_cons c (str_append p t)) ≡ some t =
      ground (arith, after_prefix-append p t) in
    ap (until (str_cons c p)) (nil-append (str_append (str_cons c p) t) ∙ cons-append c p t)
    ∙ ap (λ o. or_until o c (until (str_cons c p) (str_append p t))) here
until-append c p (str_cons d s) t free apart =
    let tail = str_append s (str_append (str_cons c p) t) in
    let cut : starts_with s p ≡ false → after_prefix p tail ≡ none = λ e.
      ap (λ y. after_prefix p (str_append s y)) (cons-append c p t)
      ∙ after_prefix-cut c p s (str_append p t) free e in
    let no_marker : after_prefix (str_cons c p) (str_cons d tail) ≡ none =
      elim (Bool-cases (code d == code c)) [
        | inl e ↦ rw e (cut (ground (arith, apart, e)))
        | inr e ↦ rw e refl
      ] in
    ap (until (str_cons c p)) (cons-append d s (str_append (str_cons c p) t))
    ∙ rw (no_marker, until-append c p s t free (ground (arith, apart))) refl

-- A block as an agent writes it

pub record Written : Type 0 where
  pub to_name : String
  pub body : String

abbrev pub print_block : Written → String → String
print_block b rest = str_append "<message" (
    str_append " " (
      str_append "to=\"" (
        str_append b.to_name
          (str_append "\"" (str_append ">" (str_append b.body (str_append "</message>" rest)))))))

-- a name and a text that fit into a block
pub record IsPrintable (b : Written) : Type 0 where
  pub named : str_eq b.to_name "" ≡ false
  pub unquoted : includes b.to_name "\"" ≡ false
  pub unclosed : includes b.body "</message>" ≡ false

-- A block that was written is read.
pub match_block-print_block :
    (b : Written) (rest : String)
    → IsPrintable b
    → match_block (print_block b rest)
      ≡ some (record { to_name = b.to_name; body = b.body; rest = rest })
unfolding match_block trim_start
match_block-print_block b rest ok =
    let closed = str_append b.body (str_append "</message>" rest) in
    let shown = str_append ">" closed in
    let quoted = str_append b.to_name (str_append "\"" shown) in
    let addressed = str_append "to=\"" quoted in
    let to_first : addressed ≡ str_cons "t" (str_append "o=\"" quoted) =
      cons-append "t" "o=\"" quoted in
    let spaced : str_append " " addressed ≡ str_cons " " addressed =
      cons-append " " "" addressed ∙ ap (str_cons " ") (nil-append addressed) in
    let trimmed : trim_start (str_cons " " addressed) ≡ addressed =
      ap trim_start to_first ∙ sym to_first in
    let above : shown ≡ str_cons ">" (str_append "" closed) = cons-append ">" "" closed in
    let shown_first : trim_start shown ≡ shown = ap trim_start above ∙ sym above in
    ap match_space (after_prefix-append "<message" (str_append " " addressed))
    ∙ ap (λ s. match_space (some s)) spaced
    ∙ ap (λ s. match_to (after_prefix "to=\"" s)) trimmed
    ∙ ap match_to (after_prefix-append "to=\"" quoted)
    ∙ ap match_name (until-append "\"" "" b.to_name shown refl ok.unquoted)
    ∙ rw ok.named (
        ap (λ s. match_body b.to_name (after_prefix ">" s)) shown_first
        ∙ ap (match_body b.to_name) (after_prefix-append ">" closed)
        ∙ ap (with_body b.to_name) (until-append "<" "/message>" b.body rest refl ok.unclosed))
