-- ===== src/Tests/Pairings.antt =====
-- The theorems of Pairing at a code that is requested, guessed wrongly and requested again.
use clawie.Prelude.{
  ◌≡◌, refl, arith, String, true, false, none, some, List, [], ◌∷◌, find, is_some, opt_eq,
}
use clawie.CommandGate.{trim_start, trim_end}
use clawie.Central.Names.{to_lower, decimal}
use clawie.Pairing.{
  PairingRecord, main_chat, invalidated, new_record, create_pairing, code_of_draw, pends, has_code,
}
use clawie.Pairing.Consume.{ConsumeInput, extract_code, strip_name, try_consume, get_pairing}
use clawie.Pairing.Sound.{IsSound, Reach, start, later, create, Reach-IsSound}
use clawie.Pairing.Once.{IsPaired, try_consume-IsPaired, create_pairing-stale}

abbrev says : String → ConsumeInput
says words = record {
  words = words;
  bot_username = "clawie_bot";
  platform_id = "telegram:7";
  is_group = true;
  name = none;
  admin_user_id = some "telegram:1";
}

addressed_code : opt_eq (extract_code " @Clawie_Bot  0042 " "clawie_bot") (some "0042") ≡ true
unfolding extract_code strip_name trim_start trim_end to_lower
addressed_code = refl

chatter : opt_eq (extract_code "my pin is 0042" "clawie_bot") none ≡ true
unfolding extract_code strip_name trim_start trim_end to_lower
chatter = refl

abbrev asked : List PairingRecord
asked = new_record (code_of_draw 42) main_chat 5 ∷ []

created :
    create_pairing main_chat 5 (42 ∷ []) [] ≡ some (asked, new_record (code_of_draw 42) main_chat 5)
unfolding create_pairing
created = refl

asked_Reach : Reach asked
asked_Reach = later start (create main_chat 5 (42 ∷ []) created)

Reach-IsSound_example : IsSound asked
Reach-IsSound_example = Reach-IsSound asked asked_Reach

try_consume-IsPaired_example : IsPaired (says "0042") 6 asked (try_consume (says "0042") 6 asked)
try_consume-IsPaired_example = try_consume-IsPaired (says "0042") 6 asked Reach-IsSound_example

wrong_code : extract_code "0043" "clawie_bot" ≡ some "0043"
unfolding extract_code strip_name trim_start trim_end to_lower
wrong_code = refl

wrong_missed : (try_consume (says "0043") 6 asked).1 ≡ none
unfolding try_consume extract_code strip_name trim_start trim_end to_lower code_of_draw decimal
wrong_missed = refl

abbrev used : PairingRecord
used = record (new_record (code_of_draw 42) main_chat 5) { status = invalidated }

used_found : find (has_code (code_of_draw 42)) (used ∷ []) ≡ some used
unfolding code_of_draw decimal
used_found = refl

used_free : is_some (find (pends (code_of_draw 42)) (used ∷ [])) ≡ false
unfolding code_of_draw decimal
used_free = refl

create_pairing-stale_example :
    (after : List PairingRecord) × (create_pairing main_chat 9 (42 ∷ []) (used ∷ [])
      ≡ some (after, new_record (code_of_draw 42) main_chat 9))
    × (get_pairing (code_of_draw 42) after ≡ some used)
create_pairing-stale_example =
    create_pairing-stale main_chat 9 42 [] (used ∷ []) used (omega arith) used_found refl used_free
