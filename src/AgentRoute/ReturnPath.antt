-- ===== src/AgentRoute/ReturnPath.antt =====
-- Where a message between agents goes, and that its answer comes back to the session it came from.
use mathlib.Core.Option.{some-injective}
use clawie.Prelude.{
  ℕ, String, ◌≡◌, ◌⊎◌, refl, sym, ap, ◌∙◌, Bool, true, false, not, ◌||◌, Option, none, some, List,
  [], ◌∷◌, inl, inr, arith, if◌then◌else◌, Option-cases, if-intro, false≢true, str_eq, str_eq_refl,
  str_eq_iff, find, exists, find-append, ◌==◌, or_else,
}
use clawie.Json.{Content}
use clawie.SessionDb.{
  InboundDb, MessageIn, MessageOut, NewMessage, has_id, insert_message, insert_row, new_row,
  next_even_seq, get_inbound_source_session_id,
}
use clawie.Central.{CentralDb, Session, is_active, agent_shared, get_session}
use clawie.SessionManager.{Host, resolve_session, write_session_message, with_message}
use clawie.SessionManager.Resolve.{resolve_session-agent_group}
use clawie.AgentRoute.{
  Courier, non_empty, origin_session_id, is_session_of_target, live_candidate,
  resolve_target_session, agent_message, may_route, route_agent_message, if_live, finish,
}

of_live :
    (target : String) (o : Option Session) {s : Session}
    → if_live target o ≡ some s
    → is_session_of_target target s ≡ true
of_live target none e = ground (arith, e)
of_live target (some candidate) {s} e =
    if-intro (λ (o : Option Session). o ≡ some s → is_session_of_target target s ≡ true)
      (is_session_of_target target candidate)
      (λ live e'. rw (sym (some-injective candidate s e')) live) (λ _ e'. ground (arith, e')) e

live-of :
    (origin : Option String) (target : String) (db : CentralDb) {s : Session}
    → live_candidate origin target db ≡ some s
    → is_session_of_target target s ≡ true
unfolding live_candidate
live-of none target db e = ground (arith, e)
live-of (some id) target db e = of_live target (get_session id db) e

resolve-cases :
    (w : Courier) (msg : MessageOut) (source : Session) (target : String) (host : Host)
    → let origin = origin_session_id msg.in_reply_to target (host.inbound source.id) in
      ((s : Session) × (live_candidate origin target host.central ≡ some s)
        × (resolve_target_session w msg source target host ≡ (s, host.central)))
      ⊎ (let (session, central, created) =
            resolve_session w.session_id w.now target none none agent_shared host.central in
          resolve_target_session w msg source target host ≡ (session, central))
unfolding resolve_target_session
resolve-cases w msg source target host =
    elim (Option-cases (
      live_candidate (origin_session_id msg.in_reply_to target (host.inbound source.id)) target
        host.central)) [
          | inl e ↦ inr (rw (e, resolve_target_session) refl)
          | inr (s, e) ↦ inl (s, e, rw (e, resolve_target_session) refl)
        ]

-- A message for an agent group is put into an active session of that very agent group, whatever
-- sessions the message and the databases name.
pub resolve_target_session-target :
    (w : Courier) (msg : MessageOut) (source : Session) (target : String) (host : Host)
    → let session = (resolve_target_session w msg source target host).0 in
      (session.agent_group_id ≡ target) × (is_active session.status ≡ true)
resolve_target_session-target w msg source target host =
    elim (resolve-cases w msg source target host) [
      | inl (s, e, r) ↦
          let live =
            live-of (origin_session_id msg.in_reply_to target (host.inbound source.id)) target
              host.central e in
          rw r ((str_eq_iff s.agent_group_id target).0 (ground (arith, live)), ground (arith, live))
      | inr r ↦ rw r (
          resolve_session-agent_group w.session_id w.now target none none agent_shared host.central)
    ]

exists-or_false :
    (p q : MessageIn → Bool) (rows : List MessageIn)
    → exists (λ m. p m || q m) rows ≡ false
    → find p rows ≡ none
exists-or_false p q [] h = refl
exists-or_false p q (m ∷ rows) h = ground (arith, h, exists-or_false p q rows)

-- What was inserted is found by its id.
inserted :
    (row : MessageIn) (db : InboundDb) {db' : InboundDb}
    → insert_row row db ≡ some db'
    → find (has_id row.id) db'.messages_in ≡ some row
unfolding insert_row
inserted row db {db'} h =
    if-intro
      (λ (o : Option InboundDb). o ≡ some db' → find (has_id row.id) db'.messages_in ≡ some row)
      (exists (λ (m : MessageIn). str_eq m.id row.id || m.seq == row.seq) db.messages_in)
      (λ _ e. ground (arith, e))
      (λ fresh e.
        sym (ap (λ o. find (has_id row.id) (or_else o db).messages_in) e)
        ∙ (find-append (has_id row.id) db.messages_in row
            ∙ rw
                (
                  exists-or_false (has_id row.id) (λ m. m.seq == row.seq) db.messages_in fresh,
                  str_eq_refl row.id,
                )
                refl))
      h

with-message :
    (now : ℕ) (session_id : String) (host : Host) (o : Option InboundDb) {host' : Host}
    → with_message now session_id host o ≡ some host'
    → o ≡ some (host'.inbound session_id)
with-message now session_id host none e = ground (arith, e)
with-message now session_id host (some db) {host'} e = sym (
    ap (λ (h : Option Host). some ((or_else h host').inbound session_id)) (sym e)
    ∙ rw (str_eq_refl session_id) refl)

-- The row of a message that was written names the session that it came from.
written :
    (stage : String → Content → Content) (now : ℕ) (session_id : String) (message : NewMessage)
    (host : Host) {host' : Host}
    → write_session_message stage now session_id message host ≡ some host'
    → get_inbound_source_session_id message.id (host'.inbound session_id)
      ≡ message.source_session_id
unfolding write_session_message insert_message get_inbound_source_session_id new_row
written stage now session_id message host {host'} h =
    let staged = record message { content = stage message.id message.content } in
    let row = new_row (next_even_seq (host.inbound session_id).messages_in) staged in
    rw
      (
        inserted row (host.inbound session_id) (with-message now session_id host _ h),
        get_inbound_source_session_id,
      )
      refl

finish-ok :
    (resolved : Host) (session_id : String) (o : Option Host)
    → (finish resolved session_id o).2 ≡ true
    → o ≡ some (finish resolved session_id o).0
finish-ok resolved session_id none ok = absurd (false≢true ok)
finish-ok resolved session_id (some written) ok = refl

-- A route that does not throw was permitted, to an agent group that exists, and its message is
-- written into the session of the target.
pub route_agent_message-ok :
    (w : Courier) (msg : MessageOut) (source : Session) (target : String) (host : Host)
    → non_empty msg.platform_id ≡ some target
    → (route_agent_message w msg source host).2 ≡ true
    → let (session, central) = resolve_target_session w msg source target host in
      (may_route source target host.central ≡ true)
      × (write_session_message w.stage w.now session.id
            (agent_message w msg source)
            (record host { central = central })
          ≡ some (route_agent_message w msg source host).0)
unfolding route_agent_message
route_agent_message-ok w msg source target host named ok =
    let (session, central) = resolve_target_session w msg source target host in
    let resolved : Host = record host { central = central } in
    let write =
      write_session_message w.stage w.now session.id (agent_message w msg source) resolved in
    let done : Host × Option Session × Bool =
      if not (may_route source target host.central)
      then (host, none, false)
      else finish resolved session.id write in
    let same : route_agent_message w msg source host ≡ done =
      rw (named, route_agent_message) refl in
    rw same (
      if-intro
        (λ (r : Host × Option Session × Bool).
          r.2 ≡ true → (may_route source target host.central ≡ true) × (write ≡ some r.0))
        (not (may_route source target host.central)) (λ _ ok'. absurd (false≢true ok'))
        (λ permitted ok'. (not_false permitted, finish-ok resolved session.id write ok'))
        (sym (ap (λ (r : Host × Option Session × Bool). r.2) same) ∙ ok))
  where
    not_false : {b : Bool} → not b ≡ false → b ≡ true
    not_false {b} h = ground (arith, h)

non_empty-some : (s : String) → str_eq s "" ≡ false → non_empty (some s) ≡ some s
non_empty-some s h = rw h refl

answers :
    (id target : String) (db : InboundDb) (origin : String)
    → str_eq id "" ≡ false
    → str_eq origin "" ≡ false
    → get_inbound_source_session_id id db ≡ some origin
    → origin_session_id (some id) target db ≡ some origin
unfolding origin_session_id
answers id target db origin named known h = rw (named, h) (rw known refl)

resolved-live :
    (w : Courier) (msg : MessageOut) (source : Session) (target : String) (host : Host)
    {s : Session}
    → live_candidate
        (origin_session_id msg.in_reply_to target (host.inbound source.id))
        target
        host.central
      ≡ some s
    → (resolve_target_session w msg source target host).0 ≡ s
unfolding resolve_target_session
resolved-live w msg source target host e = rw (e, resolve_target_session) refl

live-found :
    (id target : String) (db : CentralDb) {live : Session}
    → get_session id db ≡ some live
    → is_session_of_target target live ≡ true
    → live_candidate (some id) target db ≡ some live
unfolding live_candidate
live-found id target db {live} alive same =
    ap (if_live target) alive
    ∙ if-intro (λ (o : Option Session). o ≡ some live) (is_session_of_target target live)
        (λ _. refl) (λ other. absurd (false≢true (sym other ∙ same)))

-- The answer to a message between agents comes back to the session that the message came from,
-- if it is still an active one of its agent group: for a message that was routed, and an answer
-- that names it and is routed from the session that it was written into.
pub resolve_target_session-answer :
    (w w' : Courier) (msg answer : MessageOut) (source live : Session) (target : String)
    (host : Host) (later : CentralDb)
    → non_empty msg.platform_id ≡ some target
    → (route_agent_message w msg source host).2 ≡ true
    → str_eq w.message_id "" ≡ false
    → str_eq source.id "" ≡ false
    → answer.in_reply_to ≡ some w.message_id
    → get_session source.id later ≡ some live
    → is_session_of_target source.agent_group_id live ≡ true
    → let there = (resolve_target_session w msg source target host).0 in
      (resolve_target_session w' answer there source.agent_group_id
        (record ((route_agent_message w msg source host).0) { central = later })).0
      ≡ live
resolve_target_session-answer w w' msg answer source live target host later named ok fresh known
      reply alive same =
    let there = (resolve_target_session w msg source target host).0 in
    let after = (route_agent_message w msg source host).0 in
    let central = (resolve_target_session w msg source target host).1 in
    let stored =
      written w.stage w.now there.id (agent_message w msg source)
        (record host { central = central })
        (route_agent_message-ok w msg source target host named ok).1 in
    resolved-live w' answer there source.agent_group_id (record after { central = later })
      (rw
        (
          reply,
          answers w.message_id source.agent_group_id (after.inbound there.id) source.id fresh known
              stored,
        )
        (live-found source.id source.agent_group_id later alive same))
