-- ===== src/Pairing.antt =====
-- src/channels/telegram-pairing.ts: one-time codes by which an operator proves a chat. The store
-- is the file's list of records; a bot's username has only letters, digits and underscores.
pub mod Consume
pub mod Sound
pub mod Once
use Prim.Native.Char.{Char, code}
use Prim.Native.String
use mathlib.Core.Option as Option
use Prim.Native.String.{◌++◌ as str_append}
use clawie.Prelude.{
  ℕ, zero, suc, ◌-◌, String, Bool, true, false, not, ◌&&◌, ◌||◌, Option, none, some, List, [], ◌∷◌,
  ◌++◌, or_else, is_some, str_eq, if◌then◌else◌, leb, ltb, ◌==◌, length, last_n, drop, take, select,
  find, exists, update_where,
}
use clawie.Central.Names.{to_lower, decimal}
use clawie.CommandGate.{trim_start, trim_end}

pub data PairingIntent : Type 0 where
  main_chat : PairingIntent
  wire_to new_agent : String → PairingIntent

pub data PairingStatus : Type 0 where
  pending consumed invalidated unknown : PairingStatus

abbrev pub is_pending : PairingStatus → Bool
is_pending pending = true
is_pending _ = false

pub record ConsumedDetails : Type 0 where
  pub platform_id : String
  pub is_group : Bool
  pub name : Option String
  pub admin_user_id : Option String
  pub consumed_at : ℕ

pub record PairingAttempt : Type 0 where
  pub candidate : String
  pub platform_id : String
  pub at : ℕ
  pub matched : Bool

pub record PairingRecord : Type 0 where
  pub pairing_code : String
  pub intent : PairingIntent
  pub created_at : ℕ
  pub status : PairingStatus
  pub consumed_by : Option ConsumedDetails
  pub attempts : Option (List PairingAttempt)

abbrev pub max_attempts_per_record : ℕ
max_attempts_per_record = 10

abbrev pub intent_equals : PairingIntent → PairingIntent → Bool
intent_equals main_chat main_chat = true
intent_equals (wire_to a) (wire_to b) = str_eq a b
intent_equals (new_agent a) (new_agent b) = str_eq a b
intent_equals _ _ = false

abbrev pub store_limit : ℕ
store_limit = 50

-- the records kept
unfoldable pub sweep : List PairingRecord → List PairingRecord
sweep pairings = if leb (length pairings) store_limit then pairings else last_n store_limit pairings

-- .padStart(width, '0')
unfoldable pub pad_zeros : ℕ → String → String
pad_zeros zero s = s
pad_zeros (suc n) s = str_append "0" (pad_zeros n s)

abbrev text_length : String → ℕ
text_length String.[] = 0
text_length (String.◌∷◌ c s) = suc (text_length s)

unfoldable pub code_of_draw : ℕ → String
unfolding pad_zeros decimal
code_of_draw draw = pad_zeros (4 - text_length (decimal draw)) (decimal draw)

abbrev pub has_code : String → PairingRecord → Bool
has_code pairing_code r = str_eq r.pairing_code pairing_code

abbrev pub pends : String → PairingRecord → Bool
pends pairing_code r = has_code pairing_code r && is_pending r.status

abbrev pub pends_for : PairingIntent → PairingRecord → Bool
pends_for intent r = is_pending r.status && intent_equals r.intent intent

-- the loop over the draws, numbers below 10000; `none` is its error
unfoldable pub generate_code : List ℕ → List PairingRecord → Option String
generate_code [] pairings = none
generate_code (draw ∷ draws) pairings =
    let rest = generate_code draws pairings in
    if exists (pends (code_of_draw draw)) pairings then rest else some (code_of_draw draw)

abbrev pub invalidate : PairingRecord → PairingRecord
invalidate r = record r { status = invalidated }

abbrev pub new_record : String → PairingIntent → ℕ → PairingRecord
new_record pairing_code intent now = record {
  pairing_code = pairing_code;
  intent = intent;
  created_at = now;
  status = pending;
  consumed_by = none;
  attempts = none;
}

abbrev pub superseded : PairingIntent → List PairingRecord → List PairingRecord
superseded intent pairings = update_where (pends_for intent) invalidate pairings

abbrev pub add_record :
    PairingIntent → ℕ → List PairingRecord → String → List PairingRecord × PairingRecord
add_record intent now pairings pairing_code =
    let r = new_record pairing_code intent now in (pairings ++ r ∷ [], r)

-- `none` is the error of `generateCode`, which leaves the file as it was
unfoldable pub create_pairing :
    PairingIntent → ℕ → List ℕ → List PairingRecord → Option (List PairingRecord × PairingRecord)
unfolding sweep generate_code
create_pairing intent now draws store =
    let pairings = superseded intent (sweep store) in
    Option.map (add_record intent now pairings) (generate_code (take 50 draws) pairings)
