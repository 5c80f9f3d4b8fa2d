-- ===== src/Central/Destinations.antt =====
-- The wirings of src/db/messaging-groups.ts and the destinations of
-- src/modules/agent-to-agent/db/agent-destinations.ts that go with them.
use clawie.Prelude.{
  ℕ, zero, suc, ◌+◌, String, Bool, not, ◌&&◌, ◌||◌, Option, none, some, List, [], ◌∷◌, ◌++◌,
  if◌then◌else◌, leb, str_eq, or_else, is_some, length, select, exists, order_by,
}
use clawie.Central.Rows.{
  MessagingGroup, MessagingGroupAgent, TargetType, AgentDestination, CentralDb, is_target, channel,
}
use Prim.Native.String.{◌++◌ as str_append}
use clawie.Central.Names.{normalize_name, decimal, first_chars}
use clawie.Central.Sessions.{get_agent_group}
use clawie.Central.Chats.{get_messaging_group}

abbrev pub destinations : CentralDb → List AgentDestination
destinations db = or_else db.agent_destinations []

abbrev pub is_named : String → String → AgentDestination → Bool
is_named agent_group_id local_name d =
    str_eq d.agent_group_id agent_group_id && str_eq d.local_name local_name

abbrev pub is_targeting : String → TargetType → String → AgentDestination → Bool
is_targeting agent_group_id target_type target_id d =
    str_eq d.agent_group_id agent_group_id
    && is_target target_type d.target_type
    && str_eq d.target_id target_id

unfoldable pub has_destination : String → TargetType → String → CentralDb → Bool
has_destination agent_group_id target_type target_id db =
    exists (is_targeting agent_group_id target_type target_id) (destinations db)

-- PRIMARY KEY (agent_group_id, local_name)
unfoldable pub create_destination : AgentDestination → CentralDb → Option CentralDb
create_destination row db =
    if exists (is_named row.agent_group_id row.local_name) (destinations db)
    then none
    else some (record db { agent_destinations = some (destinations db ++ row ∷ []) })

-- the loop that looks for a free name: `base`, then `base-2`, `base-3`, …
unfoldable pub candidate : String → ℕ → String
candidate base zero = base
candidate base (suc k) = str_append base (str_append "-" (decimal (k + 2)))

unfoldable pub free_name : ℕ → ℕ → (String → Bool) → String → Option String
unfolding candidate
free_name zero k taken base = none
free_name (suc fuel) k taken base =
    let name = candidate base k in
    let rest = free_name fuel (suc k) taken base in if taken name then rest else some name

-- `wiring.name || "type-prefix"`
abbrev pub display_name : MessagingGroup → String → String
display_name mg id =
    let fallback = str_append mg.channel_type (str_append "-" (first_chars 8 id)) in
    elim mg.name [ none ↦ fallback | some name ↦ if str_eq name "" then fallback else name ]

-- the destination that goes with a wiring; one more name than there are rows is free
unfoldable pub wire_destination :
    MessagingGroupAgent → MessagingGroup → CentralDb → Option CentralDb
unfolding free_name create_destination
wire_destination mga mg db =
    let taken = λ (name : String). exists (is_named mga.agent_group_id name) (destinations db) in
    let base = normalize_name (display_name mg mga.messaging_group_id) in
    elim (free_name (suc (length (destinations db))) 0 taken base) [
      | none ↦ none
      | some local_name ↦
          create_destination
            (record {
              agent_group_id = mga.agent_group_id;
              local_name = local_name;
              target_type = channel;
              target_id = mga.messaging_group_id;
              created_at = mga.created_at;
            })
            db
    ]

-- PRIMARY KEY, UNIQUE(messaging_group_id, agent_group_id), and the two foreign keys
abbrev pub is_refused : MessagingGroupAgent → CentralDb → Bool
is_refused mga db =
    exists
      (λ (a : MessagingGroupAgent).
        str_eq a.id mga.id
        || str_eq a.messaging_group_id mga.messaging_group_id
          && str_eq a.agent_group_id mga.agent_group_id)
      db.messaging_group_agents
    || not (is_some (get_messaging_group mga.messaging_group_id db))
    || not (is_some (get_agent_group mga.agent_group_id db))

abbrev pub with_wiring : MessagingGroupAgent → CentralDb → CentralDb
with_wiring mga db = record db { messaging_group_agents = db.messaging_group_agents ++ mga ∷ [] }

unfoldable pub create_messaging_group_agent : MessagingGroupAgent → CentralDb → Option CentralDb
unfolding wire_destination has_destination
create_messaging_group_agent mga db =
    let wired = with_wiring mga db in
    if is_refused mga db
    then none
    else if not (is_some db.agent_destinations)
    then some wired
    else if has_destination mga.agent_group_id channel mga.messaging_group_id db
    then some wired
    else elim (get_messaging_group mga.messaging_group_id db) [
      | none ↦ some wired
      | some mg ↦ wire_destination mga mg wired
    ]

-- ORDER BY priority DESC
unfoldable pub get_messaging_group_agents : String → CentralDb → List MessagingGroupAgent
get_messaging_group_agents id db =
    order_by (λ (a b : MessagingGroupAgent). leb b.priority a.priority)
      (select (λ (a : MessagingGroupAgent). str_eq a.messaging_group_id id)
        db.messaging_group_agents)
