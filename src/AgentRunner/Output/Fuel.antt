-- ===== src/AgentRunner/Output/Fuel.antt =====
-- The loops of the regular expressions over the final text of an agent end: a round for each
-- character is enough.
use Prim.Native.Char.{Char, code}
use Prim.Native.String.{[] as empty, ◌∷◌ as str_cons}
use clawie.Prelude.{
  ℕ, zero, suc, ◌≤◌, String, Option, none, some, List, ◌∷◌, ◌≡◌, refl, ap, arith, if-intro, str_eq,
  ◌==◌,
}
use clawie.CommandGate.{trim_start, is_space}
use clawie.AgentRunner.Output.{
  after_prefix, or_until, until, Block, starts_with_space, with_body, match_body, match_name,
  match_to, match_space, match_block, Piece, block, next_piece, outside, pieces, text_length,
  after_internal, match_internal, next_char, drop_internal,
}

-- texts of a length at most
abbrev Fits : ℕ → Option String → Type 0
Fits n none = Unit
Fits n (some r) = text_length r ≤ n

abbrev FitsSecond : ℕ → Option (String × String) → Type 0
FitsSecond n none = Unit
FitsSecond n (some (s, r)) = text_length r ≤ n

abbrev FitsRest : ℕ → Option Block → Type 0
FitsRest n none = Unit
FitsRest n (some b) = text_length b.rest ≤ n

after_prefix-Fits : (p s : String) → Fits (text_length s) (after_prefix p s)
after_prefix-Fits empty s = omega arith
after_prefix-Fits (str_cons c p) empty = tt
after_prefix-Fits (str_cons c p) (str_cons d s) =
    if-intro (Fits (suc (text_length s))) (code d == code c)
      (λ _. later (after_prefix p s) (after_prefix-Fits p s)) (λ _. tt)
  where
    later : (o : Option String) → Fits (text_length s) o → Fits (suc (text_length s)) o
    later none h = tt
    later (some r) h = omega (arith, h)

-- a prefix that is not empty is taken away
after_prefix-Fits_less :
    (c d : Char) (p s : String) → Fits (text_length s) (after_prefix (str_cons c p) (str_cons d s))
after_prefix-Fits_less c d p s =
    if-intro (Fits (text_length s)) (code d == code c) (λ _. after_prefix-Fits p s) (λ _. tt)

trim_start-le : (s : String) → text_length (trim_start s) ≤ text_length s
unfolding trim_start
trim_start-le empty = omega arith
trim_start-le (str_cons c s) =
    if-intro (λ t. text_length t ≤ suc (text_length s)) (is_space c)
      (λ _. omega (arith, trim_start-le s)) (λ _. omega arith)

or_until-FitsSecond :
    (c : Char) (n : ℕ) (o : Option String) (rest : Option (String × String))
    → Fits (suc n) o
    → FitsSecond n rest
    → FitsSecond (suc n) (or_until o c rest)
or_until-FitsSecond c n (some r) rest h k = h
or_until-FitsSecond c n none none h k = tt
or_until-FitsSecond c n none (some (s, r)) h k = omega (arith, k)

until-FitsSecond : (m s : String) → FitsSecond (text_length s) (until m s)
until-FitsSecond m empty = tt
until-FitsSecond m (str_cons c s) =
    or_until-FitsSecond c (text_length s) (after_prefix m (str_cons c s)) (until m s)
      (after_prefix-Fits m (str_cons c s)) (until-FitsSecond m s)

-- what is left gets no longer along the expression
module _ (n : ℕ) where
  Fits-weaken : (m : ℕ) (o : Option String) → m ≤ n → Fits m o → Fits n o
  Fits-weaken m none le h = tt
  Fits-weaken m (some r) le h = omega (arith, le, h)

  FitsSecond-weaken :
      (m : ℕ) (o : Option (String × String)) → m ≤ n → FitsSecond m o → FitsSecond n o
  FitsSecond-weaken m none le h = tt
  FitsSecond-weaken m (some (s, r)) le h = omega (arith, le, h)

  with_body-FitsRest :
      (name : String) (o : Option (String × String))
      → FitsSecond n o
      → FitsRest n (with_body name o)
  with_body-FitsRest name none h = tt
  with_body-FitsRest name (some (body, rest)) h = h

  match_body-FitsRest :
      (name : String) (o : Option String) → Fits n o → FitsRest n (match_body name o)
  match_body-FitsRest name none h = tt
  match_body-FitsRest name (some s) h =
      with_body-FitsRest name (until "</message>" s) (
        FitsSecond-weaken (text_length s) (until "</message>" s) h
          (until-FitsSecond "</message>" s))

  trimmed-Fits : (p s : String) → text_length s ≤ n → Fits n (after_prefix p (trim_start s))
  trimmed-Fits p s h =
      Fits-weaken (text_length (trim_start s)) (after_prefix p (trim_start s))
        (omega (arith, h, trim_start-le s)) (after_prefix-Fits p (trim_start s))

  match_name-FitsRest : (o : Option (String × String)) → FitsSecond n o → FitsRest n (match_name o)
  match_name-FitsRest none h = tt
  match_name-FitsRest (some (name, s)) h =
      if-intro (FitsRest n) (str_eq name "") (λ _. tt)
        (λ _. match_body-FitsRest name (after_prefix ">" (trim_start s)) (trimmed-Fits ">" s h))

  match_to-FitsRest : (o : Option String) → Fits n o → FitsRest n (match_to o)
  match_to-FitsRest none h = tt
  match_to-FitsRest (some s) h =
      match_name-FitsRest (until "\"" s)
        (FitsSecond-weaken (text_length s) (until "\"" s) h (until-FitsSecond "\"" s))

  match_space-FitsRest : (o : Option String) → Fits n o → FitsRest n (match_space o)
  match_space-FitsRest none h = tt
  match_space-FitsRest (some s) h =
      if-intro (FitsRest n) (starts_with_space s)
        (λ _. match_to-FitsRest (after_prefix "to=\"" (trim_start s)) (trimmed-Fits "to=\"" s h))
        (λ _. tt)

match_block-FitsRest :
    (c : Char) (s : String) → FitsRest (text_length s) (match_block (str_cons c s))
unfolding match_block
match_block-FitsRest c s =
    match_space-FitsRest (text_length s) (after_prefix "<message" (str_cons c s))
      (after_prefix-Fits_less "<" c "message" s)

next_piece-same :
    (c : Char) (s : String) (f g : String → List Piece) (o : Option Block)
    → FitsRest (text_length s) o
    → ((r : String) → text_length r ≤ text_length s → f r ≡ g r)
    → next_piece c s f o ≡ next_piece c s g o
next_piece-same c s f g none h same = ap (λ ps. outside c ∷ ps) (same s (omega arith))
next_piece-same c s f g (some b) h same = ap (λ ps. block b.to_name b.body ∷ ps) (same b.rest h)

-- With a round for each character the loop comes to the end of the text: any other number of
-- rounds that is as large gives the same pieces.
pub pieces-enough :
    (n m : ℕ) (s : String) → text_length s ≤ n → text_length s ≤ m → pieces n s ≡ pieces m s
unfolding pieces
pieces-enough zero zero s hn hm = refl
pieces-enough zero (suc m) empty hn hm = refl
pieces-enough zero (suc m) (str_cons c s) hn hm = absurd (omega (arith, hn))
pieces-enough (suc n) zero empty hn hm = refl
pieces-enough (suc n) zero (str_cons c s) hn hm = absurd (omega (arith, hm))
pieces-enough (suc n) (suc m) empty hn hm = refl
pieces-enough (suc n) (suc m) (str_cons c s) hn hm =
    next_piece-same c s (pieces n) (pieces m) (match_block (str_cons c s))
      (match_block-FitsRest c s)
      (λ r h. pieces-enough n m r (omega (arith, h, hn)) (omega (arith, h, hm)))

after_internal-Fits :
    (n : ℕ) (o : Option (String × String)) → FitsSecond n o → Fits n (after_internal o)
after_internal-Fits n none h = tt
after_internal-Fits n (some (hidden, rest)) h = h

match_internal-Fits : (n : ℕ) (o : Option String) → Fits n o → Fits n (match_internal o)
match_internal-Fits n none h = tt
match_internal-Fits n (some s) h = after_internal-Fits n (until "</internal>" s) (
    FitsSecond-weaken n (text_length s) (until "</internal>" s) h
      (until-FitsSecond "</internal>" s))

next_char-same :
    (c : Char) (s : String) (f g : String → String) (o : Option String)
    → Fits (text_length s) o
    → ((r : String) → text_length r ≤ text_length s → f r ≡ g r)
    → next_char c s f o ≡ next_char c s g o
next_char-same c s f g none h same = ap (str_cons c) (same s (omega arith))
next_char-same c s f g (some rest) h same = same rest h

-- So does the loop that drops what is internal.
pub drop_internal-enough :
    (n m : ℕ) (s : String)
    → text_length s ≤ n
    → text_length s ≤ m
    → drop_internal n s ≡ drop_internal m s
unfolding drop_internal
drop_internal-enough zero zero s hn hm = refl
drop_internal-enough zero (suc m) empty hn hm = refl
drop_internal-enough zero (suc m) (str_cons c s) hn hm = absurd (omega (arith, hn))
drop_internal-enough (suc n) zero empty hn hm = refl
drop_internal-enough (suc n) zero (str_cons c s) hn hm = absurd (omega (arith, hm))
drop_internal-enough (suc n) (suc m) empty hn hm = refl
drop_internal-enough (suc n) (suc m) (str_cons c s) hn hm =
    next_char-same c s (drop_internal n) (drop_internal m)
      (match_internal (after_prefix "<internal>" (str_cons c s)))
      (match_internal-Fits (text_length s) (after_prefix "<internal>" (str_cons c s))
        (after_prefix-Fits_less "<" c "internal>" s))
      (λ r h. drop_internal-enough n m r (omega (arith, h, hn)) (omega (arith, h, hm)))
