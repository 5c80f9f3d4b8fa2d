-- ===== src/Router/Denials.antt =====
-- What becomes of a message whose command the command gate denies.
use clawie.Prelude.{
  ℕ, String, ◌≡◌, refl, ◌∙◌, Bool, true, false, Option, none, some, List, ◌∷◌, inl, inr, is_some,
}
use clawie.Json.{Content}
use clawie.Inbound.{InboundEvent}
use clawie.Central.{
  CentralDb, MessagingGroup, MessagingGroupAgent, Session, SessionMode, get_agent_group,
  create_session,
}
use clawie.CommandGate.{deny, gate_command}
use clawie.SessionManager.{resolve_session}
use clawie.SessionManager.Resolve.{resolve-cases}
use clawie.Router.{
  Gateway, Hooks, RouterState, evaluate_engage, deliver_to_agent, effective_session_mode,
}
use clawie.Router.Loop.{
  FanOut, ask_access, ask_scope, with_central, threaded, engage_agent, route_to_agent, fan_out,
}
use clawie.Router.Refusals.{write_outbound_direct-none}

gate_command-create_session :
    (content : Content) (user_id : Option String) (agent_group_id : String) (session : Session)
    (db : CentralDb)
    → gate_command content user_id agent_group_id (create_session session db)
      ≡ gate_command content user_id agent_group_id db
unfolding gate_command create_session
gate_command-create_session content none agent_group_id session db = refl
gate_command-create_session content (some id) agent_group_id session db = refl

-- Finding the session does not change what the command gate says.
gate_command-resolve_session :
    (content : Content) (user_id : Option String) (id : String) (now : ℕ) (agent_group_id : String)
    (messaging_group_id thread_id : Option String) (mode : SessionMode) (db : CentralDb)
    → gate_command content user_id agent_group_id
        (resolve_session id now agent_group_id messaging_group_id thread_id mode db).1
      ≡ gate_command content user_id agent_group_id db
gate_command-resolve_session content user_id id now agent_group_id messaging_group_id thread_id mode
      db =
    elim (resolve-cases id now agent_group_id messaging_group_id thread_id mode db) [
      | inl (session, e, r) ↦ rw r refl
      | inr (e, r) ↦ rw r (gate_command-create_session content user_id agent_group_id _ db)
    ]

-- Nothing is written in a session and no container wakes.
abbrev pub IsUnheard : RouterState → RouterState → Type 0
IsUnheard s t =
    (t.host.inbound ≡ s.host.inbound) × (t.host.outbound ≡ s.host.outbound) × (t.wakes ≡ s.wakes)

module _ (w : Gateway) (mg : MessagingGroup) (event : InboundEvent) (user_id : Option String)
    (agent : MessagingGroupAgent) {command : String} where
  deliver_to_agent-denied :
      (threads wake : Bool) (s : RouterState)
      → gate_command event.content user_id agent.agent_group_id s.host.central ≡ deny command
      → ((deliver_to_agent w agent mg event user_id threads wake s).1 ≡ false)
        × IsUnheard s (deliver_to_agent w agent mg event user_id threads wake s).0
  unfolding deliver_to_agent
  deliver_to_agent-denied threads wake s denied =
      let mode = effective_session_mode threads agent.session_mode mg in
      let e =
        gate_command-resolve_session event.content user_id (w.session_id agent.agent_group_id) w.now
          agent.agent_group_id (some mg.id) event.thread_id mode s.host.central
        ∙ denied in
      rw (e, deliver_to_agent, write_outbound_direct-none) (refl, (refl, refl, refl))

  engage_agent-denied :
      (f : FanOut)
      → gate_command event.content user_id agent.agent_group_id f.state.host.central ≡ deny command
      → ((engage_agent w agent mg event user_id f).1 ≡ false)
        × IsUnheard f.state (engage_agent w agent mg event user_id f).0.state
  unfolding engage_agent
  engage_agent-denied f denied =
      let (failed, unheard) = deliver_to_agent-denied (threaded w) true f.state denied in
      rw failed (refl, unheard)

  -- Where the first agent of the loop engages, the gates let the sender in, and the command gate
  -- denies the command, the loop throws: the answer to the sender is not written, and none of the
  -- agents after it gets the message, whatever their wirings say.
  pub fan_out-denied :
      (hooks : Hooks) (message_text : String) (agents : List MessagingGroupAgent) (f : FanOut)
      (db : CentralDb)
      → is_some (get_agent_group agent.agent_group_id f.state.host.central) ≡ true
      → evaluate_engage w.matches agent message_text event.is_mention mg event.thread_id
          f.state.host.central
        ≡ true
      → ask_access hooks event user_id mg agent.agent_group_id f.state.host.central ≡ (db, true)
      → ask_scope hooks user_id agent db ≡ true
      → gate_command event.content user_id agent.agent_group_id db ≡ deny command
      → ((fan_out w hooks mg event user_id message_text (agent ∷ agents) f).1 ≡ false)
        × IsUnheard f.state
            (fan_out w hooks mg event user_id message_text (agent ∷ agents) f).0.state
  unfolding fan_out route_to_agent
  fan_out-denied hooks message_text agents f db there engages access scope denied =
      let (failed, unheard) =
        engage_agent-denied (record f { state = with_central db f.state }) denied in
      rw (there, engages, access, scope) (rw failed (refl, unheard))
