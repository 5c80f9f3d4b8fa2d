-- ===== src/Tests/Names.antt =====
-- The theorems of Paths at an attachment with a hostile name, a folder and a chat of Telegram.
use clawie.Prelude.{◌≡◌, refl, true}
use clawie.Json.{Fields, text, field, end}
use clawie.Paths.{stored_name, is_valid_group_folder}
use clawie.Paths.Inside.{IsChild, stored_name-IsChild}

abbrev hostile : Fields
hostile = field "name" (text "../../agent.env") (field "data" (text "aGk=") end)

-- A voice message has no name, and gets one with an extension.
voice_named : stored_name 7 8 (field "type" (text "Voice") end) ≡ "attachment-7.ogg"
unfolding stored_name
voice_named = refl

hostile_renamed : stored_name 7 8 hostile ≡ "attachment-8"
unfolding stored_name
hostile_renamed = refl

helper_accepted : is_valid_group_folder "helper_2" ≡ true
unfolding is_valid_group_folder
helper_accepted = refl

stored_name-IsChild_example : IsChild (stored_name 7 8 hostile)
stored_name-IsChild_example = stored_name-IsChild 7 8 hostile
