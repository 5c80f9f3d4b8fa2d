-- ===== src/Pairing/Consume.antt =====
-- Matching a message against the pending pairings, and what the setup sees of a pairing:
-- `extractCode`, `tryConsume`, `getPairing` and `waitForPairing` of
-- src/channels/telegram-pairing.ts.
use Prim.Native.Char.{Char, code}
use Prim.Native.String.{◌++◌ as str_append}
use clawie.Prelude.{
  ℕ, String, Bool, true, false, not, ◌&&◌, ◌||◌, Option, none, some, List, [], ◌∷◌, ◌++◌, or_else,
  str_eq, if◌then◌else◌, leb, ◌==◌, length, last_n, drop, select, find, update_where, update_first,
}
use clawie.Central.Names.{to_lower}
use clawie.CommandGate.{trim_start, trim_end}
use clawie.Pairing.{
  PairingRecord, PairingStatus, PairingAttempt, consumed, invalidated, unknown, is_pending, pends,
  has_code, sweep, max_attempts_per_record,
}

abbrev trim : String → String
trim s = trim_end (trim_start s)

-- the rest of a text after a name, whatever the case of its letters
unfoldable pub strip_name : String → String → Option String
strip_name String.[] s = some s
strip_name (String.◌∷◌ c name) String.[] = none
strip_name (String.◌∷◌ c name) (String.◌∷◌ d s) =
    let rest = strip_name name s in
    if str_eq (to_lower (String.◌∷◌ c "")) (to_lower (String.◌∷◌ d "")) then rest else none

abbrev is_digit : Char → Bool
is_digit c = leb b'0' (code c) && leb (code c) b'9'

abbrev is_word : Char → Bool
is_word c =
    is_digit c
    || leb b'a' (code c) && leb (code c) b'z'
    || leb b'A' (code c) && leb (code c) b'Z'
    || code c == b'_'

-- \b after a letter
abbrev ends_word : String → Bool
ends_word String.[] = true
ends_word (String.◌∷◌ c s) = not (is_word c)

unfoldable pub extract_addressed_text : String → String → Option String
unfolding strip_name trim_start trim_end
extract_addressed_text words bot_username =
    elim (strip_name (str_append "@" bot_username) (trim words)) [
      | none ↦ none
      | some rest ↦ if ends_word rest then some (trim rest) else none
    ]

-- /^(\d{4})$/
unfoldable pub is_code : String → Bool
is_code (String.◌∷◌ a (String.◌∷◌ b (String.◌∷◌ c (String.◌∷◌ d String.[])))) =
    is_digit a && is_digit b && is_digit c && is_digit d
is_code _ = false

unfoldable pub extract_code : String → String → Option String
unfolding extract_addressed_text is_code
extract_code words bot_username =
    let candidate = trim (or_else (extract_addressed_text words bot_username) words) in
    if is_code candidate then some candidate else none

pub record ConsumeInput : Type 0 where
  pub words : String
  pub bot_username : String
  pub platform_id : String
  pub is_group : Bool
  pub name : Option String
  pub admin_user_id : Option String

abbrev add_attempt : PairingAttempt → PairingRecord → PairingRecord
add_attempt attempt r = record r {
  attempts = some (last_n max_attempts_per_record (or_else r.attempts [] ++ attempt ∷ []));
}

abbrev attempt_of : ConsumeInput → String → ℕ → Bool → PairingAttempt
attempt_of input pairing_code now matched = record {
  candidate = pairing_code;
  platform_id = input.platform_id;
  at = now;
  matched = matched;
}

abbrev pub miss : ConsumeInput → String → ℕ → PairingRecord → PairingRecord
miss input pairing_code now r = record (add_attempt (attempt_of input pairing_code now false) r) {
  status = invalidated;
}

abbrev pub consume : ConsumeInput → String → ℕ → PairingRecord → PairingRecord
consume input pairing_code now r = record (add_attempt (attempt_of input pairing_code now true) r) {
  status = consumed;
  consumed_by = some (record {
    platform_id = input.platform_id;
    is_group = input.is_group;
    name = input.name;
    admin_user_id = input.admin_user_id;
    consumed_at = now;
  });
}

abbrev pub pends_at_all : PairingRecord → Bool
pends_at_all r = is_pending r.status

-- A wrong code ends every pending pairing.
unfoldable pub consume_match :
    ConsumeInput
    → ℕ
    → String
    → List PairingRecord
    → Option PairingRecord
    → List PairingRecord × Option PairingRecord
consume_match input now pairing_code pairings none =
    (update_where pends_at_all (miss input pairing_code now) pairings, none)
consume_match input now pairing_code pairings (some r) = (
  update_first (pends pairing_code) (consume input pairing_code now) pairings,
  some (consume input pairing_code now r),
)

unfoldable pub consume_code :
    ConsumeInput
    → ℕ
    → List PairingRecord
    → Option String
    → List PairingRecord × Option PairingRecord
unfolding consume_match sweep
consume_code input now store none = (store, none)
consume_code input now store (some pairing_code) =
    consume_match input now pairing_code (sweep store) (find (pends pairing_code) (sweep store))

unfoldable pub try_consume :
    ConsumeInput → ℕ → List PairingRecord → List PairingRecord × Option PairingRecord
unfolding extract_code consume_code
try_consume input now store =
    consume_code input now store (extract_code input.words input.bot_username)

unfoldable pub get_pairing : String → List PairingRecord → Option PairingRecord
unfolding sweep
get_pairing pairing_code store = find (has_code pairing_code) (sweep store)

abbrev status_of : Option PairingRecord → PairingStatus
status_of none = unknown
status_of (some r) = r.status

unfoldable pub get_status : String → List PairingRecord → PairingStatus
unfolding get_pairing
get_status pairing_code store = status_of (get_pairing pairing_code store)

-- what a tick of `waitForPairing` finds
pub data Wait : Type 0 where
  waiting disappeared rejected : Wait
  resolved : PairingRecord → Wait

abbrev pub wait_of : PairingStatus → PairingRecord → Wait
wait_of consumed r = resolved r
wait_of invalidated r = rejected
wait_of _ r = waiting

abbrev misses_since : ℕ → PairingRecord → List PairingAttempt
misses_since seen r =
    select (λ (a : PairingAttempt). not a.matched) (drop seen (or_else r.attempts []))

abbrev seen_after : ℕ → PairingRecord → ℕ
seen_after seen r = elim r.attempts [ none ↦ seen | some attempts ↦ length attempts ]

-- the outcome, the misses reported, and the number of attempts seen
unfoldable pub check : ℕ → String → List PairingRecord → Wait × List PairingAttempt × ℕ
unfolding get_pairing
check seen pairing_code store = elim (get_pairing pairing_code store) [
  | none ↦ (disappeared, [], seen)
  | some r ↦ (wait_of r.status r, misses_since seen r, seen_after seen r)
]
