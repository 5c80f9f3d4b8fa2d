-- ===== src/Router/Loop.antt =====
-- src/router.ts, the loop of `routeInbound` over the agents wired to a chat.
use clawie.Prelude.{
  ℕ, ◌+◌, String, Bool, true, false, not, ◌&&◌, Option, none, some, List, [], ◌∷◌, if◌then◌else◌,
  is_some, or_else,
}
use clawie.Inbound.{InboundEvent}
use clawie.Central.{
  CentralDb, MessagingGroup, MessagingGroupAgent, EngageMode, mention_sticky, drop_ignored,
  accumulate, IgnoredMessagePolicy, get_agent_group,
}
use clawie.Router.{Gateway, Hooks, RouterState, evaluate_engage, deliver_to_agent}

-- What the loop over the wired agents carries.
pub record FanOut : Type 0 where
  pub state : RouterState
  pub engaged_count : ℕ
  pub accumulated_count : ℕ
  pub subscribed : Bool

abbrev pub with_central : CentralDb → RouterState → RouterState
with_central central s = record s { host = record (s.host) { central = central } }

-- `!accessGate || accessGate(…).allowed`, asked only of an agent that engages
abbrev pub ask_access :
    Hooks → InboundEvent → Option String → MessagingGroup → String → CentralDb → CentralDb × Bool
ask_access hooks event user_id mg agent_group_id db = elim hooks.access_gate [
  | none ↦ (db, true)
  | some gate ↦ gate event user_id mg agent_group_id db
]

abbrev pub ask_scope : Hooks → Option String → MessagingGroupAgent → CentralDb → Bool
ask_scope hooks user_id agent db = elim hooks.sender_scope_gate [
  | none ↦ true
  | some gate ↦ gate user_id agent db
]

abbrev pub is_sticky : EngageMode → Bool
is_sticky mention_sticky = true
is_sticky _ = false

abbrev pub threaded : Gateway → Bool
threaded w = or_else w.supports_threads false

-- the subscription of a thread, once for a message
unfoldable pub subscribe :
    Gateway → MessagingGroupAgent → MessagingGroup → InboundEvent → FanOut → FanOut
subscribe w agent mg event f = elim event.thread_id [
  | none ↦ f
  | some thread ↦
      if not f.subscribed
        && is_sticky agent.engage_mode
        && threaded w
        && w.can_subscribe
        && mg.is_group
      then record f {
        subscribed = true;
        state = record (f.state) {
          subscriptions = (event.platform_id, thread) ∷ f.state.subscriptions;
        };
      }
      else f
]

abbrev pub is_accumulating : IgnoredMessagePolicy → Bool
is_accumulating accumulate = true
is_accumulating drop_ignored = false

unfoldable pub engage_agent :
    Gateway
    → MessagingGroupAgent
    → MessagingGroup
    → InboundEvent
    → Option String
    → FanOut
    → FanOut × Bool
unfolding subscribe
engage_agent w agent mg event user_id f =
    let (state, ok) = deliver_to_agent w agent mg event user_id (threaded w) true f.state in
    if ok
    then (
      subscribe w agent mg event (record f { state = state; engaged_count = f.engaged_count + 1 }),
      true,
    )
    else (record f { state = state }, false)

unfoldable pub accumulate_for_agent :
    Gateway
    → MessagingGroupAgent
    → MessagingGroup
    → InboundEvent
    → Option String
    → FanOut
    → FanOut × Bool
accumulate_for_agent w agent mg event user_id f =
    let (state, ok) = deliver_to_agent w agent mg event user_id (threaded w) false f.state in
    if ok
    then (record f { state = state; accumulated_count = f.accumulated_count + 1 }, true)
    else (record f { state = state }, false)

-- the body of the loop for an agent whose group exists
unfoldable pub route_to_agent :
    Gateway
    → Hooks
    → MessagingGroup
    → InboundEvent
    → Option String
    → String
    → MessagingGroupAgent
    → FanOut
    → FanOut × Bool
unfolding engage_agent accumulate_for_agent
route_to_agent w hooks mg event user_id message_text agent f =
    let db = f.state.host.central in
    if evaluate_engage w.matches agent message_text event.is_mention mg event.thread_id db
    then (let (central, access_ok) = ask_access hooks event user_id mg agent.agent_group_id db in
        let f' : FanOut = record f { state = with_central central f.state } in
        if access_ok && ask_scope hooks user_id agent central
        then engage_agent w agent mg event user_id f'
        else (f', true))
    else if is_accumulating agent.ignored_message_policy
    then accumulate_for_agent w agent mg event user_id f
    else (f, true)

-- the loop; an exception ends it
unfoldable pub fan_out :
    Gateway
    → Hooks
    → MessagingGroup
    → InboundEvent
    → Option String
    → String
    → List MessagingGroupAgent
    → FanOut
    → FanOut × Bool
unfolding route_to_agent
fan_out w hooks mg event user_id message_text [] f = (f, true)
fan_out w hooks mg event user_id message_text (agent ∷ agents) f =
    if is_some (get_agent_group agent.agent_group_id f.state.host.central)
    then (let (f', ok) = route_to_agent w hooks mg event user_id message_text agent f in
        let rest = fan_out w hooks mg event user_id message_text agents f' in
        if ok then rest else (f', false))
    else fan_out w hooks mg event user_id message_text agents f
