-- ===== src/SessionManager/Resolve.antt =====
-- Which session a message goes to: one of the agent group, and the same one the next time.
use clawie.Prelude.{
  ℕ, String, ◌≡◌, ◌⊎◌, refl, ◌∙◌, true, false, Option, none, some, inl, inr, arith, is_some,
  find-holds, find-append, str_eq, str_eq_iff, str_eq_refl, Option-cases, All-find, All-order_by,
  All-holds, order_by, select, leb, opt_eq, if-intro, select-append, find_first-none, false≢true,
}
use clawie.Central.{
  CentralDb, Session, SessionMode, shared, per_thread, agent_shared, is_active, create_session,
  find_session_for_agent, find_session_by_agent_group, is_session_for, is_session_of, on_thread,
}
use clawie.SessionManager.{
  find_session, resolve_session, new_session, thread_of, chat_of, find_in_chat,
}

pub resolve-cases :
    (id : String) (now : ℕ) (agent_group_id : String) (messaging_group_id thread_id : Option String)
    (mode : SessionMode) (db : CentralDb)
    → ((session : Session) × (find_session agent_group_id messaging_group_id thread_id mode db
          ≡ some session)
        × (resolve_session id now agent_group_id messaging_group_id thread_id mode db
            ≡ (session, db, false)))
      ⊎ ((find_session agent_group_id messaging_group_id thread_id mode db ≡ none)
          × (resolve_session id now agent_group_id messaging_group_id thread_id mode db ≡ (
            new_session id now agent_group_id messaging_group_id thread_id mode,
            create_session (new_session id now agent_group_id messaging_group_id thread_id mode) db,
            true,
          )))
unfolding resolve_session
resolve-cases id now agent_group_id messaging_group_id thread_id mode db =
    elim (Option-cases (find_session agent_group_id messaging_group_id thread_id mode db)) [
      | inl e ↦ inr (e, rw (e, resolve_session) refl)
      | inr (session, e) ↦ inl (session, e, rw (e, resolve_session) refl)
    ]

-- The session that a lookup finds is an active one of the agent group.
abbrev IsOf : String → Session → Type 0
IsOf agent_group_id s = (s.agent_group_id ≡ agent_group_id) × (is_active s.status ≡ true)

found-for :
    (agent_group_id id : String) (thread_id : Option String) (db : CentralDb) {s : Session}
    → find_session_for_agent agent_group_id id thread_id db ≡ some s
    → IsOf agent_group_id s
unfolding find_session_for_agent
found-for agent_group_id id thread_id db {s} e =
    let h = find-holds (is_session_for agent_group_id id thread_id) db.sessions e in
    ((str_eq_iff s.agent_group_id agent_group_id).0 (ground (arith, h)), ground (arith, h))

found-by :
    (agent_group_id : String) (db : CentralDb) {s : Session}
    → find_session_by_agent_group agent_group_id db ≡ some s
    → IsOf agent_group_id s
unfolding find_session_by_agent_group
found-by agent_group_id db {s} e =
    let h =
      All-find (λ (x : Session). is_session_of agent_group_id x ≡ true) (λ (x : Session). true)
        (order_by (λ (a b : Session). leb b.created_at a.created_at)
          (select (is_session_of agent_group_id) db.sessions))
        (All-order_by (λ (x : Session). is_session_of agent_group_id x ≡ true)
          (λ (a b : Session). leb b.created_at a.created_at)
          (select (is_session_of agent_group_id) db.sessions)
          (All-holds (is_session_of agent_group_id) db.sessions))
        e in
    ((str_eq_iff s.agent_group_id agent_group_id).0 (ground (arith, h)), ground (arith, h))

found-in_chat :
    (agent_group_id : String) (chat thread_id : Option String) (db : CentralDb) {s : Session}
    → find_in_chat agent_group_id chat thread_id db ≡ some s
    → IsOf agent_group_id s
found-in_chat agent_group_id none thread_id db e = ground (arith, e)
found-in_chat agent_group_id (some id) thread_id db e = found-for agent_group_id id thread_id db e

found :
    (agent_group_id : String) (messaging_group_id thread_id : Option String) (mode : SessionMode)
    (db : CentralDb) {s : Session}
    → find_session agent_group_id messaging_group_id thread_id mode db ≡ some s
    → IsOf agent_group_id s
unfolding find_session
found agent_group_id messaging_group_id thread_id agent_shared db e = found-by agent_group_id db e
found agent_group_id messaging_group_id thread_id shared db e =
    found-in_chat agent_group_id (chat_of messaging_group_id) none db e
found agent_group_id messaging_group_id thread_id per_thread db e =
    found-in_chat agent_group_id (chat_of messaging_group_id) thread_id db e

-- A message for an agent group is written to an active session of that agent group, found or
-- created.
pub resolve_session-agent_group :
    (id : String) (now : ℕ) (agent_group_id : String) (messaging_group_id thread_id : Option String)
    (mode : SessionMode) (db : CentralDb)
    → let session =
        (resolve_session id now agent_group_id messaging_group_id thread_id mode db).0 in
      (session.agent_group_id ≡ agent_group_id) × (is_active session.status ≡ true)
resolve_session-agent_group id now agent_group_id messaging_group_id thread_id mode db =
    elim (resolve-cases id now agent_group_id messaging_group_id thread_id mode db) [
      | inl (session, e, r) ↦ rw r (found agent_group_id messaging_group_id thread_id mode db e)
      | inr (e, r) ↦ rw r (refl, refl)
    ]

-- Where a lookup can find what `resolveSession` creates: a chat that has an id, and a thread whose
-- id is not the empty text.
abbrev pub IsKeyed : SessionMode → Option String → Option String → Type 0
IsKeyed agent_shared messaging_group_id thread_id = Unit
IsKeyed shared messaging_group_id thread_id = is_some (chat_of messaging_group_id) ≡ true
IsKeyed per_thread messaging_group_id thread_id =
    (is_some (chat_of messaging_group_id) ≡ true) × (opt_eq thread_id (some "") ≡ false)

on_thread-new :
    (thread_id : Option String) (s : Session)
    → opt_eq thread_id (some "") ≡ false
    → s.thread_id ≡ thread_id
    → on_thread thread_id s ≡ true
on_thread-new none s h e = rw e refl
on_thread-new (some t) s h e = rw (h, e) (str_eq_refl t)

chat-of :
    (messaging_group_id : Option String) {id : String}
    → chat_of messaging_group_id ≡ some id
    → messaging_group_id ≡ some id
chat-of none h = ground (arith, h)
chat-of (some m) {id} h =
    if-intro (λ (o : Option String). o ≡ some id → some m ≡ some id) (str_eq m "")
      (λ _ e. ground (arith, e)) (λ _ e. e) h

created-for :
    (agent_group_id id : String) (thread_id : Option String) (db : CentralDb) (s : Session)
    → find_session_for_agent agent_group_id id thread_id db ≡ none
    → is_session_for agent_group_id id thread_id s ≡ true
    → find_session_for_agent agent_group_id id thread_id (create_session s db) ≡ some s
unfolding find_session_for_agent create_session
created-for agent_group_id id thread_id db s absent h =
    find-append (is_session_for agent_group_id id thread_id) db.sessions s ∙ rw (absent, h) refl

created-by :
    (agent_group_id : String) (db : CentralDb) (s : Session)
    → find_session_by_agent_group agent_group_id db ≡ none
    → is_session_of agent_group_id s ≡ true
    → find_session_by_agent_group agent_group_id (create_session s db) ≡ some s
unfolding find_session_by_agent_group create_session
created-by agent_group_id db s absent h =
    rw
      (
        select-append (is_session_of agent_group_id) db.sessions s h,
        find_first-none (λ (a b : Session). leb b.created_at a.created_at)
            (select (is_session_of agent_group_id) db.sessions) absent,
      )
      refl

created-in_chat :
    (id : String) (now : ℕ) (agent_group_id : String) (messaging_group_id thread_id : Option String)
    (mode : SessionMode) (db : CentralDb) (chat : Option String)
    → is_some chat ≡ true
    → ((c : String) → chat ≡ some c → messaging_group_id ≡ some c)
    → opt_eq (thread_of mode thread_id) (some "") ≡ false
    → find_in_chat agent_group_id chat (thread_of mode thread_id) db ≡ none
    → let s = new_session id now agent_group_id messaging_group_id thread_id mode in
      find_in_chat agent_group_id chat (thread_of mode thread_id) (create_session s db) ≡ some s
created-in_chat id now agent_group_id messaging_group_id thread_id mode db none keyed same named
      absent =
    absurd (false≢true keyed)
created-in_chat id now agent_group_id messaging_group_id thread_id mode db (some chat) keyed same
      named absent =
    let s = new_session id now agent_group_id messaging_group_id thread_id mode in
    created-for agent_group_id chat (thread_of mode thread_id) db s absent (
      rw (same chat refl, str_eq_refl agent_group_id, str_eq_refl chat)
        (ground (
          arith,
          on_thread-new (thread_of mode thread_id) (record s { messaging_group_id = some chat })
              named refl,
        )))

created :
    (id : String) (now : ℕ) (agent_group_id : String) (messaging_group_id thread_id : Option String)
    (mode : SessionMode) (db : CentralDb)
    → IsKeyed mode messaging_group_id thread_id
    → find_session agent_group_id messaging_group_id thread_id mode db ≡ none
    → let s = new_session id now agent_group_id messaging_group_id thread_id mode in
      find_session agent_group_id messaging_group_id thread_id mode (create_session s db) ≡ some s
unfolding find_session
created id now agent_group_id messaging_group_id thread_id agent_shared db keyed absent =
    created-by agent_group_id db _ absent (rw (str_eq_refl agent_group_id) refl)
created id now agent_group_id messaging_group_id thread_id shared db keyed absent =
    created-in_chat id now agent_group_id messaging_group_id thread_id shared db
      (chat_of messaging_group_id) keyed (λ c e. chat-of messaging_group_id e) refl absent
created id now agent_group_id messaging_group_id thread_id per_thread db keyed absent =
    created-in_chat id now agent_group_id messaging_group_id thread_id per_thread db
      (chat_of messaging_group_id) keyed.0 (λ c e. chat-of messaging_group_id e) keyed.1 absent

resolve-found :
    (id : String) (now : ℕ) (agent_group_id : String) (messaging_group_id thread_id : Option String)
    (mode : SessionMode) (db : CentralDb) {s : Session}
    → find_session agent_group_id messaging_group_id thread_id mode db ≡ some s
    → resolve_session id now agent_group_id messaging_group_id thread_id mode db ≡ (s, db, false)
unfolding resolve_session
resolve-found id now agent_group_id messaging_group_id thread_id mode db e =
    rw (e, resolve_session) refl

-- A second message of the same chat and thread finds the session of the first, and creates none.
pub resolve_session-again :
    (id id' : String) (now now' : ℕ) (agent_group_id : String)
    (messaging_group_id thread_id : Option String) (mode : SessionMode) (db : CentralDb)
    → IsKeyed mode messaging_group_id thread_id
    → let (session, db', made) =
        resolve_session id now agent_group_id messaging_group_id thread_id mode db in
      resolve_session id' now' agent_group_id messaging_group_id thread_id mode db'
      ≡ (session, db', false)
resolve_session-again id id' now now' agent_group_id messaging_group_id thread_id mode db keyed =
    elim (resolve-cases id now agent_group_id messaging_group_id thread_id mode db) [
      | inl (session, e, r) ↦
          rw r (resolve-found id' now' agent_group_id messaging_group_id thread_id mode db e)
      | inr (e, r) ↦ rw r (
          resolve-found id' now' agent_group_id messaging_group_id thread_id mode
            (create_session (new_session id now agent_group_id messaging_group_id thread_id mode)
              db)
            (created id now agent_group_id messaging_group_id thread_id mode db keyed e))
    ]
