-- ===== src/Tests/Wiring.antt =====
-- The theorem of Central.Wiring at a second chat of the name of the first.
use clawie.Prelude.{◌≡◌, refl, true, false, some, [], ◌∷◌, ◌++◌, str_eq, opt_eq}
use clawie.Central.{
  CentralDb, MessagingGroupAgent, channel, has_destination, is_refused,
  create_messaging_group_agent, get_messaging_group, get_agent_group, candidate, free_name,
}
use clawie.Central.Names.{normalize_name, decimal}
use clawie.Central.Wiring.{create_messaging_group_agent-wires}
use clawie.Tests.{central, family_chat, wiring}

abbrev db : CentralDb
db = record (central []) {
  messaging_groups = family_chat ∷ record family_chat { id = "mg-second" } ∷ [];
}

abbrev second : MessagingGroupAgent
second = record (wiring "mga-2" "ag-helper") { messaging_group_id = "mg-second" }

second_accepted : is_refused second db ≡ false
unfolding get_messaging_group get_agent_group
second_accepted = refl

-- The name of the first chat is taken.
second_name :
    opt_eq
      (free_name 3 0 (λ name. str_eq name "family") (normalize_name "Family"))
      (some "family-2")
    ≡ true
unfolding free_name candidate decimal normalize_name
second_name = refl

create_messaging_group_agent-wires_example :
    (after : CentralDb) × (create_messaging_group_agent second db ≡ some after)
    × (after.messaging_group_agents ≡ [] ++ second ∷ [])
    × (has_destination "ag-helper" channel "mg-second" after ≡ true)
create_messaging_group_agent-wires_example =
    create_messaging_group_agent-wires second db second_accepted refl
