-- ===== src/Router/Inbound.antt =====
-- src/router.ts: `routeInbound`, the steps around the loop over the agents.
use clawie.Prelude.{
  ℕ, ◌+◌, String, Bool, true, false, not, ◌||◌, Option, none, some, ◌∷◌, if◌then◌else◌, ◌==◌,
  str_eq, is_some, or_else,
}
use Prim.Native.String.{◌++◌ as str_append}
use clawie.Json.{Content, json, plain, null, get, as_string}
use clawie.Inbound.{InboundEvent}
use clawie.Central.{
  CentralDb, MessagingGroup, MessagingGroupAgent, ChannelAccount, AccountScope, request_approval,
  all_senders, drop_ignored, shared, UnregisteredSender, get_channel_account,
  get_messaging_group_with_agent_count, create_messaging_group, create_messaging_group_agent,
  get_messaging_group_agents, record_dropped_message,
}
use clawie.Permissions.Gates.{sender_name_of}
use clawie.Router.{Gateway, Hooks, RouterState, Result}
use clawie.Router.Loop.{fan_out, with_central}

-- A step that goes on, returns from the function, or throws; each keeps what was written.
pub data Step (A : Type 0) : Type 0 where
  next : A → RouterState → Step A
  stop : RouterState → Step A
  fail : RouterState → Step A

abbrev pub apply_thread_policy : Gateway → InboundEvent → InboundEvent
apply_thread_policy w event =
    if or_else w.supports_threads true then event else record event { thread_id = none }

-- `event.channelAccount ? getChannelAccount(…) : undefined`
abbrev pub inbound_account : InboundEvent → CentralDb → Option ChannelAccount
inbound_account event db = elim event.channel_account [
  | none ↦ none
  | some account ↦
      if str_eq account "" then none else get_channel_account event.channel_type account db
]

abbrev pub is_default_account : Option ChannelAccount → Bool
is_default_account none = false
is_default_account (some account) = account.is_default

abbrev pub scope_of : InboundEvent → Option ChannelAccount → Option AccountScope
scope_of event account = elim event.channel_account [
  | none ↦ none
  | some name ↦
      some (record { channel_account = name; include_null_account = is_default_account account })
]

abbrev pub new_group : Gateway → InboundEvent → MessagingGroup
new_group w event = record {
  id = str_append "mg-" w.fresh_id;
  channel_type = event.channel_type;
  platform_id = event.platform_id;
  name = none;
  is_group = event.is_group;
  unknown_sender_policy = request_approval;
  denied_at = none;
  channel_account = event.channel_account;
}

-- step 1: the chat and the number of its wirings
unfoldable pub find_or_create_chat :
    Gateway → InboundEvent → RouterState → Step (MessagingGroup × ℕ)
find_or_create_chat w event s =
    let db = s.host.central in
    elim (get_messaging_group_with_agent_count event.channel_type event.platform_id
      (scope_of event (inbound_account event db)) db) [
        | some found ↦ next found s
        | none ↦
            if event.is_mention
            then elim (create_messaging_group (new_group w event) db) [
              | none ↦ fail s
              | some db' ↦ next (new_group w event, 0) (with_central db' s)
            ]
            else stop s
      ]

abbrev pub default_wiring : Gateway → MessagingGroup → ChannelAccount → String → MessagingGroupAgent
default_wiring w mg account agent_group_id = record {
  id = str_append "mga-" w.fresh_id;
  messaging_group_id = mg.id;
  agent_group_id = agent_group_id;
  engage_mode = account.engage_mode;
  engage_pattern = account.engage_pattern;
  sender_scope = all_senders;
  ignored_message_policy = drop_ignored;
  session_mode = shared;
  priority = 0;
  created_at = w.now;
}

-- `inboundAccount?.default_agent_group_id` as a condition
abbrev pub default_agent : Option ChannelAccount → Option (ChannelAccount × String)
default_agent none = none
default_agent (some account) = elim account.default_agent_group_id [
  | none ↦ none
  | some id ↦ if str_eq id "" then none else some (account, id)
]

abbrev pub structural_drop :
    InboundEvent → Option String → String → MessagingGroup → UnregisteredSender
structural_drop event user_id reason mg = record {
  channel_type = event.channel_type;
  platform_id = event.platform_id;
  user_id = user_id;
  sender_name = sender_name_of event.content;
  reason = reason;
  messaging_group_id = some mg.id;
  agent_group_id = none;
  message_count = 1;
}

-- step 1b; a content that is null throws at `parsed.sender`
unfoldable pub escalate : InboundEvent → MessagingGroup → RouterState → Step Unit
escalate event mg s = elim event.content [
  | json null ↦ fail s
  | _ ↦
      let dropped =
        record_dropped_message (structural_drop event none "no_agent_wired" mg) s.host.central in
      let s' = with_central dropped s in
      stop (record s' { channel_requests = mg.id ∷ s.channel_requests })
]

unfoldable pub ensure_wired : Gateway → InboundEvent → MessagingGroup → ℕ → RouterState → Step Unit
unfolding escalate
ensure_wired w event mg agent_count s =
    let db = s.host.central in
    if not (agent_count == 0)
    then next tt s
    else if not event.is_mention || is_some mg.denied_at
    then stop s
    else elim (default_agent (inbound_account event db)) [
      | none ↦ escalate event mg s
      | some (account, id) ↦
          elim (create_messaging_group_agent (default_wiring w mg account id) db) [
            | none ↦ fail s
            | some db' ↦ next tt (with_central db' s)
          ]
    ]

-- step 2
unfoldable pub resolve_sender : Hooks → InboundEvent → RouterState → Step (Option String)
resolve_sender hooks event s = elim hooks.sender_resolver [
  | none ↦ next none s
  | some resolver ↦ elim (resolver event s.host.central) [
    | none ↦ fail s
    | some (db, user_id) ↦ next user_id (with_central db s)
  ]
]

-- `parsed.text ?? ''`, which throws where the content is null; texts that are no strings are not
-- modelled
abbrev pub text_of : Content → Option String
text_of (plain raw) = some raw
text_of (json null) = none
text_of (json content) = some (or_else (as_string (get "text" content)) "")

-- steps 3 and 4
unfoldable pub route_to_agents :
    Gateway → Hooks → InboundEvent → MessagingGroup → Option String → RouterState → Result
unfolding fan_out
route_to_agents w hooks event mg user_id s = elim (text_of event.content) [
  | none ↦ (s, false)
  | some message_text ↦
      let (f, ok) =
        fan_out w hooks mg event user_id message_text
          (get_messaging_group_agents mg.id s.host.central)
          (record { state = s; engaged_count = 0; accumulated_count = 0; subscribed = false }) in
      if not ok
      then (f.state, false)
      else if f.engaged_count + f.accumulated_count == 0
      then (
        with_central
            (record_dropped_message (structural_drop event user_id "no_agent_engaged" mg)
              f.state.host.central)
            f.state,
        true,
      )
      else (f.state, true)
]

unfoldable pub route_inbound : Gateway → Hooks → InboundEvent → RouterState → Result
unfolding find_or_create_chat ensure_wired resolve_sender route_to_agents
route_inbound w hooks raw_event s =
    let event = apply_thread_policy w raw_event in
    if w.intercepts raw_event then (s, true) else elim (find_or_create_chat w event s) [
      | stop s1 ↦ (s1, true)
      | fail s1 ↦ (s1, false)
      | next (mg, agent_count) s1 ↦ elim (ensure_wired w event mg agent_count s1) [
        | stop s2 ↦ (s2, true)
        | fail s2 ↦ (s2, false)
        | next done s2 ↦ elim (resolve_sender hooks event s2) [
          | stop s3 ↦ (s3, true)
          | fail s3 ↦ (s3, false)
          | next user_id s3 ↦ route_to_agents w hooks event mg user_id s3
        ]
      ]
    ]
