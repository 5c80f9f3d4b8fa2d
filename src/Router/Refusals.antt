-- ===== src/Router/Refusals.antt =====
-- What the gates keep from an agent, and what a denied command does to a message.
use clawie.Prelude.{
  ◌+◌, String, ◌≡◌, ◌⊎◌, refl, ◌∙◌, Bool, true, false, not, ◌&&◌, Option, none, some, List, [], ◌∷◌,
  inl, inr, is_some, Option-cases, if-intro, ◌==◌, ◌≢◌,
}
use clawie.Inbound.{InboundEvent}
use clawie.SessionDb.{MessageOut}
use clawie.Central.{
  CentralDb, MessagingGroup, MessagingGroupAgent, Session, get_agent_group,
  get_messaging_group_agents, public,
}
use clawie.CommandGate.{GateResult, pass, filter, deny, gate_command}
use clawie.SessionManager.{
  Host, resolve_session, write_outbound_direct, insert_direct, write_session_message,
}
use clawie.Router.{
  Gateway, Hooks, RouterState, Result, evaluate_engage, deliver_to_agent, effective_session_mode,
  write_and_wake, inbound_message,
}
use clawie.Permissions.Gates.{ApprovalDesk, access_gate}
use clawie.Router.Access.{
  SameAccess, SameAccess-refl, SameAccess-trans, is_let_in, is_let_in-same, access_gate-refused,
  record_dropped_message-SameAccess, resolve_session-SameAccess, write_and_wake-SameAccess,
}
use clawie.Router.Loop.{
  FanOut, ask_access, ask_scope, threaded, is_accumulating, accumulate_for_agent, route_to_agent,
  fan_out,
}
use clawie.Router.Inbound.{route_to_agents, text_of, structural_drop}

-- The direct write of the host always throws: it asks for the connection that is read-only.
pub write_outbound_direct-none :
    (session_id : String) (message : MessageOut) (host : Host)
    → write_outbound_direct session_id message host ≡ none
unfolding write_outbound_direct insert_direct
write_outbound_direct-none session_id message host = refl

-- Where an agent engages and one of the gates refuses the sender, no message is stored in a session,
-- none is written out, no container wakes, and the loop goes on with its counts as they were.
pub route_to_agent-refused :
    (w : Gateway) (hooks : Hooks) (mg : MessagingGroup) (event : InboundEvent)
    (user_id : Option String) (message_text : String) (agent : MessagingGroupAgent) (f : FanOut)
    → evaluate_engage w.matches agent message_text event.is_mention mg event.thread_id
        f.state.host.central
      ≡ true
    → (let (central, access_ok) =
          ask_access hooks event user_id mg agent.agent_group_id f.state.host.central in
        (access_ok && ask_scope hooks user_id agent central) ≡ false)
    → let (f', ok) = route_to_agent w hooks mg event user_id message_text agent f in
      (f'.state.host.inbound ≡ f.state.host.inbound)
      × (f'.state.host.outbound ≡ f.state.host.outbound)
      × (f'.state.wakes ≡ f.state.wakes)
      × (f'.engaged_count ≡ f.engaged_count)
      × (f'.accumulated_count ≡ f.accumulated_count)
      × (ok ≡ true)
unfolding route_to_agent
route_to_agent-refused w hooks mg event user_id message_text agent f engages refused =
    rw (engages, refused) (refl, refl, refl, refl, refl, refl)

GateResult-cases :
    (g : GateResult) → (g ≡ pass) ⊎ (g ≡ filter) ⊎ ((command : String) × (g ≡ deny command))
GateResult-cases pass = inl refl
GateResult-cases filter = inr (inl refl)
GateResult-cases (deny command) = inr (inr (command, refl))

-- A message that is only accumulated wakes nobody.
write_and_wake-asleep :
    (w : Gateway) (event : InboundEvent) (agent : MessagingGroupAgent) (session : Session)
    (s : RouterState)
    → (write_and_wake w event agent session false s).0.wakes ≡ s.wakes
unfolding write_and_wake
write_and_wake-asleep w event agent session s =
    elim (Option-cases (
      write_session_message w.stage w.now session.id
        (inbound_message w event agent.agent_group_id false) s.host)) [
          | inl e ↦ rw (e, write_and_wake) refl
          | inr (host, e) ↦ rw (e, write_and_wake) refl
        ]

module _ (w : Gateway) (event : InboundEvent) (user_id : Option String) (mg : MessagingGroup) where
  deliver_to_agent-asleep :
      (agent : MessagingGroupAgent) (threads : Bool) (s : RouterState)
      → (deliver_to_agent w agent mg event user_id threads false s).0.wakes ≡ s.wakes
  unfolding deliver_to_agent
  deliver_to_agent-asleep agent threads s =
      let mode = effective_session_mode threads agent.session_mode mg in
      let (session, central, created) =
        resolve_session (w.session_id agent.agent_group_id) w.now agent.agent_group_id (some mg.id)
          event.thread_id mode s.host.central in
      elim (GateResult-cases (gate_command event.content user_id agent.agent_group_id central)) [
        | inl e ↦ rw (e, deliver_to_agent) (write_and_wake-asleep w event agent session _)
        | inr (inl e) ↦ rw (e, deliver_to_agent) refl
        | inr (inr (command, e)) ↦ rw (e, deliver_to_agent, write_outbound_direct-none) refl
      ]

  deliver_to_agent-SameAccess :
      (agent : MessagingGroupAgent) (threads : Bool) (s : RouterState)
      → SameAccess s.host.central
          (deliver_to_agent w agent mg event user_id threads false s).0.host.central
  unfolding deliver_to_agent
  deliver_to_agent-SameAccess agent threads s =
      let mode = effective_session_mode threads agent.session_mode mg in
      let (session, central, created) =
        resolve_session (w.session_id agent.agent_group_id) w.now agent.agent_group_id (some mg.id)
          event.thread_id mode s.host.central in
      let same =
        resolve_session-SameAccess (w.session_id agent.agent_group_id) w.now agent.agent_group_id
          (some mg.id) event.thread_id mode s.host.central in
      let s' : RouterState = record s { host = record (s.host) { central = central } } in
      elim (GateResult-cases (gate_command event.content user_id agent.agent_group_id central)) [
        | inl e ↦
            rw (e, deliver_to_agent)
              (SameAccess-trans same (write_and_wake-SameAccess w event agent session s'))
        | inr (inl e) ↦ rw (e, deliver_to_agent) same
        | inr (inr (command, e)) ↦ rw (e, deliver_to_agent, write_outbound_direct-none) same
      ]

  -- A step that wakes nobody and leaves what access depends on.
  abbrev Quiet : RouterState → RouterState → Type 0
  Quiet s t = (t.wakes ≡ s.wakes) × SameAccess s.host.central t.host.central

  deliver_to_agent-Quiet :
      (agent : MessagingGroupAgent) (threads : Bool) (s : RouterState)
      → Quiet s (deliver_to_agent w agent mg event user_id threads false s).0
  deliver_to_agent-Quiet agent threads s =
      (deliver_to_agent-asleep agent threads s, deliver_to_agent-SameAccess agent threads s)

  accumulate_for_agent-Quiet :
      (agent : MessagingGroupAgent) (f : FanOut)
      → Quiet f.state (accumulate_for_agent w agent mg event user_id f).0.state
  unfolding accumulate_for_agent
  accumulate_for_agent-Quiet agent f =
      let (state, ok) = deliver_to_agent w agent mg event user_id (threaded w) false f.state in
      let quiet = deliver_to_agent-Quiet agent (threaded w) f.state in
      if-intro (λ (r : FanOut × Bool). Quiet f.state r.0.state) ok (λ _. quiet) (λ _. quiet)

  Quiet-trans : (s t u : RouterState) → Quiet s t → Quiet t u → Quiet s u
  Quiet-trans s t u (a, b) (c, d) = (c ∙ a, SameAccess-trans b d)

  module _ (desk : ApprovalDesk) (hooks : Hooks) (message_text : String)
      (gated : hooks.access_gate ≡ some (access_gate desk))
      (closed : mg.unknown_sender_policy ≢ public) where
    ask_access-refused :
        (agent_group_id : String) (db : CentralDb)
        → is_let_in user_id agent_group_id db ≡ false
        → ((ask_access hooks event user_id mg agent_group_id db).1 ≡ false)
          × SameAccess db (ask_access hooks event user_id mg agent_group_id db).0
    ask_access-refused agent_group_id db refused =
        rw gated (access_gate-refused desk event user_id mg agent_group_id db closed refused)

    route_to_agent-Quiet :
        (agent : MessagingGroupAgent) (f : FanOut)
        → is_let_in user_id agent.agent_group_id f.state.host.central ≡ false
        → Quiet f.state (route_to_agent w hooks mg event user_id message_text agent f).0.state
    unfolding route_to_agent
    route_to_agent-Quiet agent f refused =
        let (no_access, same) =
          ask_access-refused agent.agent_group_id f.state.host.central refused in
        if-intro (λ (r : FanOut × Bool). Quiet f.state r.0.state)
          (evaluate_engage w.matches agent message_text event.is_mention mg event.thread_id
            f.state.host.central)
          (λ _. rw no_access (refl, same))
          (λ _.
            if-intro (λ (r : FanOut × Bool). Quiet f.state r.0.state)
              (is_accumulating agent.ignored_message_policy)
              (λ _. accumulate_for_agent-Quiet agent f) (λ _. (refl, SameAccess-refl)))

    fan_out-Quiet :
        (agents : List MessagingGroupAgent) (f : FanOut)
        → ((agent_group_id : String)
            → is_let_in user_id agent_group_id f.state.host.central ≡ false)
        → Quiet f.state (fan_out w hooks mg event user_id message_text agents f).0.state
    unfolding fan_out
    fan_out-Quiet [] f refused = (refl, SameAccess-refl)
    fan_out-Quiet (agent ∷ agents) f refused =
        let (f', ok) = route_to_agent w hooks mg event user_id message_text agent f in
        let quiet = route_to_agent-Quiet agent f (refused agent.agent_group_id) in
        if-intro (λ (r : FanOut × Bool). Quiet f.state r.0.state)
          (is_some (get_agent_group agent.agent_group_id f.state.host.central))
          (λ _.
            if-intro (λ (r : FanOut × Bool). Quiet f.state r.0.state) ok
              (λ _.
                Quiet-trans f.state f'.state
                  (fan_out w hooks mg event user_id message_text agents f').0.state quiet
                  (fan_out-Quiet agents f' (λ id. is_let_in-same user_id id quiet.1 ∙ refused id)))
              (λ _. quiet))
          (λ _. fan_out-Quiet agents f refused)

  -- Where the gates of the permissions module are installed and the chat is not public, a sender who
  -- has no id, or whom the tables give no access to any agent group, wakes no container, whatever the
  -- wirings of the chat are, and gains no access: users, roles and members are as before.
  pub route_to_agents-refused :
      (desk : ApprovalDesk) (hooks : Hooks) (s : RouterState)
      → hooks.access_gate ≡ some (access_gate desk)
      → mg.unknown_sender_policy ≢ public
      → ((agent_group_id : String) → is_let_in user_id agent_group_id s.host.central ≡ false)
      → ((route_to_agents w hooks event mg user_id s).0.wakes ≡ s.wakes)
        × SameAccess s.host.central (route_to_agents w hooks event mg user_id s).0.host.central
  unfolding route_to_agents
  route_to_agents-refused desk hooks s gated closed refused =
      elim (Option-cases (text_of event.content)) [
        | inl e ↦ rw (e, route_to_agents) (refl, SameAccess-refl)
        | inr (message_text, e) ↦
            let agents = get_messaging_group_agents mg.id s.host.central in
            let start : FanOut = record {
              state = s;
              engaged_count = 0;
              accumulated_count = 0;
              subscribed = false;
            } in
            let (f, ok) = fan_out w hooks mg event user_id message_text agents start in
            let quiet = fan_out-Quiet desk hooks message_text gated closed agents start refused in
            rw (e, route_to_agents)
              (if-intro (λ (r : Result). Quiet s r.0) (not ok) (λ _. quiet)
                (λ _.
                  if-intro (λ (r : Result). Quiet s r.0)
                    (f.engaged_count + f.accumulated_count == 0)
                    (λ _. (
                      quiet.0,
                      SameAccess-trans quiet.1 (
                          record_dropped_message-SameAccess
                            (structural_drop event user_id "no_agent_engaged" mg)
                            f.state.host.central),
                    ))
                    (λ _. quiet)))
      ]
