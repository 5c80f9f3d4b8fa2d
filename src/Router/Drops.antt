-- ===== src/Router/Drops.antt =====
-- The record of a dropped message: what the access gate and the router write about the same
-- message.
use clawie.Prelude.{
  ℕ, ◌+◌, String, ◌≡◌, refl, sym, ap, ◌∙◌, true, false, ◌&&◌, Option, none, some, [], ◌∷◌, inl, inr,
  arith, is_some, Bool-cases, Option-cases, false≢true, str_eq, str_eq_refl, find, find-append,
  find-update_where_image,
}
use clawie.Inbound.{InboundEvent}
use clawie.Central.{
  CentralDb, MessagingGroup, MessagingGroupAgent, strict, UnregisteredSender,
  record_dropped_message, is_from, drop_again, get_agent_group, get_messaging_group_agents,
}
use clawie.Permissions.{can_access_agent_group, is_allowed}
use clawie.Permissions.Gates.{
  ApprovalDesk, access_gate, handle_unknown_sender, drop_record, by_policy, request_if_known,
  check_access,
}
use clawie.Router.{Gateway, Hooks, RouterState, evaluate_engage}
use clawie.Router.Loop.{FanOut, ask_access, with_central, route_to_agent, fan_out}
use clawie.Router.Inbound.{route_to_agents, text_of, structural_drop}

-- The row of a chat in `unregistered_senders`.
abbrev pub drop_row : String → String → CentralDb → Option UnregisteredSender
drop_row channel_type platform_id db =
    find
      (λ (s : UnregisteredSender).
        str_eq s.channel_type channel_type && str_eq s.platform_id platform_id)
      db.unregistered_senders

abbrev count_in : Option UnregisteredSender → ℕ
count_in none = 0
count_in (some row) = row.message_count

abbrev reason_in : Option UnregisteredSender → Option String
reason_in none = none
reason_in (some row) = some row.reason

abbrev pub drop_count : String → String → CentralDb → ℕ
drop_count channel_type platform_id db = count_in (drop_row channel_type platform_id db)

abbrev pub drop_reason : String → String → CentralDb → Option String
drop_reason channel_type platform_id db = reason_in (drop_row channel_type platform_id db)

abbrev next_row : UnregisteredSender → Option UnregisteredSender → UnregisteredSender
next_row msg none = record msg { message_count = 1 }
next_row msg (some row) = drop_again msg row

recorded :
    (msg : UnregisteredSender) (db : CentralDb)
    → find (is_from msg) (record_dropped_message msg db).unregistered_senders
      ≡ some (next_row msg (find (is_from msg) db.unregistered_senders))
unfolding record_dropped_message
recorded msg db = elim (Option-cases (find (is_from msg) db.unregistered_senders)) [
  | inl e ↦ rw e (
      find-append (is_from msg) db.unregistered_senders (record msg { message_count = 1 })
      ∙ rw (e, str_eq_refl msg.channel_type, str_eq_refl msg.platform_id) refl)
  | inr (row, e) ↦ rw e (
      find-update_where_image (is_from msg) (is_from msg) (drop_again msg) db.unregistered_senders
        (λ x h. refl) (λ x h. h) e)
]

count-next :
    (msg : UnregisteredSender) (o : Option UnregisteredSender)
    → (next_row msg o).message_count ≡ count_in o + 1
count-next msg none = omega arith
count-next msg (some row) = refl

reason-next :
    (msg : UnregisteredSender) (o : Option UnregisteredSender)
    → (next_row msg o).reason ≡ msg.reason
reason-next msg none = refl
reason-next msg (some row) = refl

-- Each record of a dropped message counts it in the row of the chat, and leaves its own reason
-- there.
pub record_dropped_message_lem :
    (msg : UnregisteredSender) (db : CentralDb)
    → (drop_count msg.channel_type msg.platform_id (record_dropped_message msg db)
        ≡ drop_count msg.channel_type msg.platform_id db + 1)
      × (drop_reason msg.channel_type msg.platform_id (record_dropped_message msg db)
          ≡ some msg.reason)
record_dropped_message_lem msg db =
    let before = find (is_from msg) db.unregistered_senders in
    (
      ap count_in (recorded msg db) ∙ count-next msg before,
      ap reason_in (recorded msg db) ∙ ap some (reason-next msg before),
    )

strict-recorded :
    (desk : ApprovalDesk) (event : InboundEvent) (user_id : Option String) (mg : MessagingGroup)
    (agent_group_id : String) (db : CentralDb)
    → mg.unknown_sender_policy ≡ strict
    → handle_unknown_sender desk mg user_id agent_group_id event db
      ≡ record_dropped_message (drop_record mg user_id agent_group_id event) db
unfolding handle_unknown_sender
strict-recorded desk event user_id mg agent_group_id db h =
    let recorded = record_dropped_message (drop_record mg user_id agent_group_id event) db in
    ap
      (λ p.
        by_policy p recorded (request_if_known desk mg user_id agent_group_id event recorded) db)
      h

checked-refused :
    (desk : ApprovalDesk) (event : InboundEvent) (user_id : Option String) (mg : MessagingGroup)
    (agent_group_id : String) (db : CentralDb)
    → (check_access desk event user_id mg agent_group_id db).1 ≡ false
    → (by : Option String) × (check_access desk event user_id mg agent_group_id db
        ≡ (handle_unknown_sender desk mg by agent_group_id event db, false))
unfolding check_access
checked-refused desk event none mg agent_group_id db refused = (none, refl)
checked-refused desk event (some id) mg agent_group_id db refused =
    elim (Bool-cases (str_eq id "")) [
      | inl e ↦ (none, rw e refl)
      | inr e ↦ elim (Bool-cases (is_allowed (can_access_agent_group id agent_group_id db))) [
        | inl let_in ↦ absurd (false≢true (sym refused ∙ rw (e, let_in) refl))
        | inr out ↦ (some id, rw (e, out) refl)
      ]
    ]

strict-refused :
    (desk : ApprovalDesk) (event : InboundEvent) (user_id : Option String) (mg : MessagingGroup)
    (agent_group_id : String) (db : CentralDb)
    → mg.unknown_sender_policy ≡ strict
    → (access_gate desk event user_id mg agent_group_id db).1 ≡ false
    → (by : Option String) × (access_gate desk event user_id mg agent_group_id db
        ≡ (record_dropped_message (drop_record mg by agent_group_id event) db, false))
unfolding access_gate
strict-refused desk event user_id mg agent_group_id db h refused =
    let checked = check_access desk event user_id mg agent_group_id db in
    let gate : access_gate desk event user_id mg agent_group_id db ≡ checked =
      ap (λ p. by_policy p checked checked (db, true)) h in
    let (by, e) =
      checked-refused desk event user_id mg agent_group_id db
        (sym (ap (λ r. r.1) gate) ∙ refused) in
    (by, gate ∙ e ∙ ap (λ d. (d, false)) (strict-recorded desk event by mg agent_group_id db h))

module _ (w : Gateway) (hooks : Hooks) (event : InboundEvent) (mg : MessagingGroup)
    (user_id : Option String) (agent : MessagingGroupAgent) where
  -- the loop over one agent, to which the access gate refuses the sender
  fan_out-refused :
      (message_text : String) (f : FanOut) {db : CentralDb}
      → is_some (get_agent_group agent.agent_group_id f.state.host.central) ≡ true
      → evaluate_engage w.matches agent message_text event.is_mention mg event.thread_id
          f.state.host.central
        ≡ true
      → ask_access hooks event user_id mg agent.agent_group_id f.state.host.central ≡ (db, false)
      → fan_out w hooks mg event user_id message_text (agent ∷ []) f
        ≡ (record f { state = with_central db f.state }, true)
  unfolding fan_out route_to_agent
  fan_out-refused message_text f there engages asked = rw (there, engages, asked) refl

  route_to_agents-dropped :
      {message_text : String} (s : RouterState) {db : CentralDb}
      → get_messaging_group_agents mg.id s.host.central ≡ agent ∷ []
      → is_some (get_agent_group agent.agent_group_id s.host.central) ≡ true
      → text_of event.content ≡ some message_text
      → evaluate_engage w.matches agent message_text event.is_mention mg event.thread_id
          s.host.central
        ≡ true
      → ask_access hooks event user_id mg agent.agent_group_id s.host.central ≡ (db, false)
      → route_to_agents w hooks event mg user_id s ≡ (
        with_central
            (record_dropped_message (structural_drop event user_id "no_agent_engaged" mg) db)
            s,
        true,
      )
  unfolding route_to_agents
  route_to_agents-dropped {message_text} s wired there said engages asked =
      rw (said, route_to_agents)
        (rw
          (
            wired,
            fan_out-refused message_text
                (record { state = s; engaged_count = 0; accumulated_count = 0; subscribed = false })
                there engages asked,
          )
          refl)

  -- A message of a sender whom the access gate refuses in a chat with the strict policy and one
  -- wired agent, which engages on it: it is recorded twice, and of the two reasons the router's
  -- stays, so that the row does not tell that the sender was refused.
  pub route_to_agents-recorded_twice :
      (desk : ApprovalDesk) (message_text : String) (s : RouterState)
      → hooks.access_gate ≡ some (access_gate desk)
      → mg.unknown_sender_policy ≡ strict
      → get_messaging_group_agents mg.id s.host.central ≡ agent ∷ []
      → is_some (get_agent_group agent.agent_group_id s.host.central) ≡ true
      → text_of event.content ≡ some message_text
      → evaluate_engage w.matches agent message_text event.is_mention mg event.thread_id
          s.host.central
        ≡ true
      → (access_gate desk event user_id mg agent.agent_group_id s.host.central).1 ≡ false
      → let after = (route_to_agents w hooks event mg user_id s).0.host.central in
        (drop_count event.channel_type event.platform_id after
          ≡ drop_count event.channel_type event.platform_id s.host.central + 2)
        × (drop_reason event.channel_type event.platform_id after ≡ some "no_agent_engaged")
  unfolding drop_record
  route_to_agents-recorded_twice desk message_text s gate policy wired there said engages refused =
      let (by, asked) =
        strict-refused desk event user_id mg agent.agent_group_id s.host.central policy refused in
      let first = drop_record mg by agent.agent_group_id event in
      let second = structural_drop event user_id "no_agent_engaged" mg in
      let db = record_dropped_message first s.host.central in
      rw (route_to_agents-dropped s {db = db} wired there said engages (rw gate asked)) (
        omega (
          arith,
          (record_dropped_message_lem second db).0,
          (record_dropped_message_lem first s.host.central).0,
        ),
        (record_dropped_message_lem second db).1,
      )
