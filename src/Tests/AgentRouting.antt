-- ===== src/Tests/AgentRouting.antt =====
-- The theorems of AgentRoute at a question from one agent to another.
use clawie.Prelude.{String, ◌≡◌, refl, true, some, []}
use clawie.SessionDb.{
  MessageOut, get_most_recent_peer_source_session_id, insert_message, insert_row, next_even_seq,
}
use clawie.Central.{
  Session, get_agent_group, get_session, find_session_by_agent_group, has_destination,
}
use clawie.SessionManager.{resolve_session, find_session, write_session_message}
use clawie.AgentRoute.{
  Courier, route_agent_message, resolve_target_session, may_route, origin_session_id,
  live_candidate,
}
use clawie.AgentRoute.ReturnPath.{resolve_target_session-answer}
use clawie.Tests.{central, host, session_of, outgoing}

abbrev courier : String → Courier
courier id = record {
  now = 80;
  message_id = id;
  session_id = "s-new";
  forward = λ (msg : MessageOut). msg.content;
  stage = λ id content. content;
}

abbrev question : MessageOut
question = record (outgoing "o1") { channel_type = some "agent"; platform_id = some "ag-writer" }

abbrev answer : MessageOut
answer = record (outgoing "o2") {
  channel_type = some "agent";
  platform_id = some "ag-helper";
  in_reply_to = some "a2a-1";
}

abbrev asker : Session
asker = session_of "s-helper" "ag-helper"

question_routed : (route_agent_message (courier "a2a-1") question asker (host [])).2 ≡ true
unfolding route_agent_message may_route has_destination get_agent_group resolve_target_session
    origin_session_id get_most_recent_peer_source_session_id live_candidate resolve_session
    find_session find_session_by_agent_group write_session_message insert_message insert_row
    next_even_seq
question_routed = refl

asker_there : get_session "s-helper" (central []) ≡ some asker
unfolding get_session
asker_there = refl

resolve_target_session-answer_example :
    let there = (resolve_target_session (courier "a2a-1") question asker "ag-writer" (host [])).0 in
    (resolve_target_session
      (courier "a2a-2")
      answer
      there
      "ag-helper"
      (record ((route_agent_message (courier "a2a-1") question asker (host [])).0) {
        central = central [];
      })).0
    ≡ asker
resolve_target_session-answer_example =
    resolve_target_session-answer (courier "a2a-1") (courier "a2a-2") question answer asker asker
      "ag-writer" (host []) (central []) refl question_routed refl refl refl asker_there refl
