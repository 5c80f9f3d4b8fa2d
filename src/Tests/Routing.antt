-- ===== src/Tests/Routing.antt =====
-- The theorems of Router and SessionManager at the sample chat.
use clawie.Prelude.{
  ◌+◌, String, ◌≡◌, ◌≢◌, refl, sym, ap, false≢true, true, false, ◌&&◌, none, some, List, [], ◌∷◌,
  is_some,
}
use clawie.Inbound.{InboundEvent}
use clawie.Central.{
  MessagingGroupAgent, UnregisteredSender, public, per_thread, get_agent_group,
  get_messaging_group_agents,
}
use clawie.CommandGate.{
  deny, gate_command, command_of, message_text, trim_start, trim_end, first_word, is_admin,
}
use clawie.Central.Names.{to_lower}
use clawie.Permissions.{
  get_user, is_owner, is_global_admin, is_admin_of_agent_group, is_member, has_membership_row,
  can_access_agent_group,
}
use clawie.Permissions.Gates.{ApprovalDesk, access_gate, check_access, sender_scope_gate, by_policy}
use clawie.SessionManager.{resolve_session}
use clawie.SessionManager.Resolve.{resolve_session-again}
use clawie.Router.{Gateway, Hooks, RouterState, evaluate_engage}
use clawie.Router.Loop.{FanOut, ask_access, ask_scope, fan_out}
use clawie.Router.Inbound.{route_to_agents}
use clawie.Router.Access.{SameAccess, is_let_in}
use clawie.Router.Refusals.{route_to_agents-refused}
use clawie.Router.Denials.{fan_out-denied, IsUnheard}
use clawie.Router.Drops.{route_to_agents-recorded_twice, drop_count, drop_reason}
use clawie.Tests.{central, host, family_chat, wiring, incoming, says}

abbrev gateway : Gateway
gateway = record {
  now = 50;
  fresh_id = "50-abc";
  session_id = λ (agent : String). "s-new";
  supports_threads = some false;
  can_subscribe = false;
  intercepts = λ (event : InboundEvent). false;
  matches = λ pat words. some false;
  stage = λ id content. content;
}

abbrev desk : ApprovalDesk
desk = record { fresh_id = "nsa-1"; reachable = λ (ids : List String). none }

abbrev hooks : Hooks
hooks = record {
  sender_resolver = none;
  access_gate = some (access_gate desk);
  sender_scope_gate = some sender_scope_gate;
}

abbrev helper_wiring : MessagingGroupAgent
helper_wiring = wiring "w1" "ag-helper"

abbrev writer_wiring : MessagingGroupAgent
writer_wiring = wiring "w2" "ag-writer"

abbrev start : List MessagingGroupAgent → RouterState
start wirings = record {
  host = host wirings;
  wakes = [];
  subscriptions = [];
  channel_requests = [];
}

abbrev loop : FanOut
loop = record {
  state = start (helper_wiring ∷ writer_wiring ∷ []);
  engaged_count = 0;
  accumulated_count = 0;
  subscribed = false;
}

closed_chat : family_chat.unknown_sender_policy ≢ public
closed_chat e = false≢true (sym (ap (λ p. by_policy p true true false) e))

stranger_outside :
    (agent_group_id : String)
    → is_let_in (some "telegram:stranger") agent_group_id loop.state.host.central ≡ false
unfolding can_access_agent_group get_user is_owner is_global_admin is_admin_of_agent_group is_member
    has_membership_row
stranger_outside agent_group_id = refl

route_to_agents-refused_example :
    let s = (start (helper_wiring ∷ writer_wiring ∷ [])) in
    ((route_to_agents gateway hooks
        (incoming "hi")
        family_chat
        (some "telegram:stranger")
        s).0.wakes
      ≡ [])
    × SameAccess s.host.central
        (route_to_agents gateway hooks
          (incoming "hi")
          family_chat
          (some "telegram:stranger")
          s).0.host.central
route_to_agents-refused_example =
    route_to_agents-refused gateway (incoming "hi") (some "telegram:stranger") family_chat desk
      hooks (start (helper_wiring ∷ writer_wiring ∷ [])) refl closed_chat stranger_outside

helper_engages :
    (words : String)
    → evaluate_engage gateway.matches helper_wiring words true family_chat none
        loop.state.host.central
      ≡ true
unfolding evaluate_engage
helper_engages words = refl

stranger_refused :
    (let (db, access_ok) =
        ask_access hooks
          (incoming "hi")
          (some "telegram:stranger")
          family_chat
          "ag-helper"
          loop.state.host.central in
      (access_ok && ask_scope hooks (some "telegram:stranger") helper_wiring db) ≡ false)
unfolding access_gate check_access sender_scope_gate can_access_agent_group get_user is_owner
    is_global_admin is_admin_of_agent_group is_member has_membership_row
stranger_refused = refl

helper_there : is_some (get_agent_group "ag-helper" loop.state.host.central) ≡ true
unfolding get_agent_group
helper_there = refl

member_let_in :
    ask_access hooks
      (incoming "/clear")
      (some "telegram:member")
      family_chat
      "ag-helper"
      loop.state.host.central
    ≡ (loop.state.host.central, true)
unfolding access_gate check_access can_access_agent_group get_user is_owner is_global_admin
    is_admin_of_agent_group is_member has_membership_row
member_let_in = refl

member_in_scope :
    ask_scope hooks (some "telegram:member") helper_wiring loop.state.host.central ≡ true
unfolding sender_scope_gate
member_in_scope = refl

member_denied :
    gate_command (says "/clear") (some "telegram:member") "ag-helper" loop.state.host.central
    ≡ deny "/clear"
unfolding gate_command command_of message_text trim_start trim_end first_word to_lower is_admin
member_denied = refl

fan_out-denied_example :
    let (f, ok) =
      fan_out gateway hooks family_chat
        (incoming "/clear")
        (some "telegram:member")
        "/clear"
        (helper_wiring ∷ writer_wiring ∷ [])
        loop in
    (ok ≡ false) × IsUnheard loop.state f.state
fan_out-denied_example =
    fan_out-denied gateway family_chat (incoming "/clear") (some "telegram:member") helper_wiring
      {command = "/clear"} hooks "/clear" (writer_wiring ∷ []) loop loop.state.host.central
      helper_there (helper_engages "/clear") member_let_in member_in_scope member_denied

abbrev one_agent : RouterState
one_agent = start (helper_wiring ∷ [])

one_wiring : get_messaging_group_agents "mg-family" one_agent.host.central ≡ helper_wiring ∷ []
unfolding get_messaging_group_agents
one_wiring = refl

stranger_stopped :
    (access_gate desk
      (incoming "hi")
      (some "telegram:stranger")
      family_chat
      "ag-helper"
      one_agent.host.central).1
    ≡ false
unfolding access_gate check_access can_access_agent_group get_user is_owner is_global_admin
    is_admin_of_agent_group is_member has_membership_row
stranger_stopped = refl

one_there : is_some (get_agent_group "ag-helper" one_agent.host.central) ≡ true
unfolding get_agent_group
one_there = refl

one_engages :
    evaluate_engage gateway.matches helper_wiring "hi" true family_chat none one_agent.host.central
    ≡ true
unfolding evaluate_engage
one_engages = refl

route_to_agents-recorded_twice_example :
    let after =
      (route_to_agents gateway hooks
        (incoming "hi")
        family_chat
        (some "telegram:stranger")
        one_agent).0.host.central in
    (drop_count "telegram" "-100" after ≡ drop_count "telegram" "-100" one_agent.host.central + 2)
    × (drop_reason "telegram" "-100" after ≡ some "no_agent_engaged")
route_to_agents-recorded_twice_example =
    route_to_agents-recorded_twice gateway hooks (incoming "hi") family_chat
      (some "telegram:stranger") helper_wiring desk "hi" one_agent refl refl one_wiring one_there
      refl one_engages stranger_stopped

abbrev dropped : UnregisteredSender
dropped = record {
  channel_type = "telegram";
  platform_id = "-100";
  user_id = none;
  sender_name = none;
  reason = "no_agent_wired";
  messaging_group_id = none;
  agent_group_id = none;
  message_count = 1;
}

-- The thread has no session yet, and the second message finds the one that the first created.
resolve_session-again_example :
    let (session, db, made) =
      resolve_session "s-new" 60 "ag-helper"
        (some "mg-family")
        (some "t1")
        per_thread
        (central []) in
    resolve_session "s-other" 70 "ag-helper" (some "mg-family") (some "t1") per_thread db
    ≡ (session, db, false)
resolve_session-again_example =
    resolve_session-again "s-new" "s-other" 60 70 "ag-helper" (some "mg-family") (some "t1")
      per_thread (central []) (refl, refl)
