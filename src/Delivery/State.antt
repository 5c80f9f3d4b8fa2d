-- ===== src/Delivery/State.antt =====
-- The state of src/delivery.ts, and the questions that it keeps.
use clawie.Prelude.{
  ℕ, String, Bool, true, false, ◌&&◌, Option, none, some, List, [], ◌∷◌, ◌++◌, if◌then◌else◌,
  str_eq, opt_eq, is_some, exists,
}
use clawie.Json.{Value, Items, nil, cons, null, truthy, as_string, as_items, get}
use clawie.SessionDb.{InboundDb, MessageOut}
use clawie.Central.{Session}

-- what the channel adapter was asked to send
pub record Sent : Type 0 where
  pub message_id : String
  pub channel_type : String
  pub platform_id : String
  pub thread_id : Option String
  pub account : Option String

-- A row of `pending_questions`, as far as it tells the question and the message.
pub record PendingQuestion : Type 0 where
  pub question_id : String
  pub session_id : String
  pub message_out_id : String
  pub title : String

-- What a drain reads and writes. `attempts` is the map `deliveryAttempts`, where 0 is a missing
-- key; `questions` is the table `pending_questions`, if it is there.
pub record DeliveryState : Type 0 where
  pub inbound : InboundDb
  pub attempts : String → ℕ
  pub questions : Option (List PendingQuestion)
  pub sent : List Sent

-- What is outside of the file: the adapter's answer to a send (a platform id, or `none` where it
-- throws), the registered handlers of system actions, and the agent-to-agent route; the latter two
-- say whether they threw.
pub record Outside : Type 0 where
  pub send : Sent → Option (Option String)
  pub actions : String → Option (Value → InboundDb → InboundDb × Bool)
  pub route_agent_message : MessageOut → Bool

-- a function of the source that may throw keeps what it wrote before
pub data Outcome : Type 0 where
  done : Option String → Outcome
  threw : Outcome

-- `a && b`, where the empty text is falsy too
abbrev pub non_empty : Option String → Option String
non_empty none = none
non_empty (some s) = if str_eq s "" then none else some s

-- INSERT OR IGNORE INTO pending_questions
abbrev pub insert_question : PendingQuestion → List PendingQuestion → List PendingQuestion
insert_question row rows =
    if exists (λ (q : PendingQuestion). str_eq q.question_id row.question_id) rows
    then rows
    else rows ++ row ∷ []

-- the texts of a question with its title, where it is to be kept
unfoldable pub question_of : Value → Option (String × String)
question_of content =
    if opt_eq (as_string (get "type" content)) (some "ask_question")
      && truthy (get "questionId" content)
      && truthy (get "title" content)
      && is_some (as_items (get "options" content))
    then elim (as_string (get "questionId" content)) [
      | none ↦ none
      | some id ↦ elim (as_string (get "title" content)) [
        | none ↦ none
        | some title ↦ some (id, title)
      ]
    ]
    else none

-- `normalizeOptions` reads a field of every option that is not a text, which throws on null
abbrev pub normalizes : Items → Bool
normalizes nil = true
normalizes (cons null rest) = false
normalizes (cons _ rest) = normalizes rest

unfoldable pub options_normalize : Value → Bool
options_normalize content = elim (as_items (get "options" content)) [
  | none ↦ true
  | some options ↦ normalizes options
]

-- `none` is an exception; ids and titles that are truthy and no texts are not modelled
unfoldable pub track_question : Session → MessageOut → Value → DeliveryState → Option DeliveryState
track_question session msg content s = elim s.questions [
  | none ↦ some s
  | some rows ↦ elim (question_of content) [
    | none ↦ some s
    | some (id, title) ↦
        let row : PendingQuestion = record {
          question_id = id;
          session_id = session.id;
          message_out_id = msg.id;
          title = title;
        } in
        if options_normalize content
        then some (record s { questions = some (insert_question row rows) })
        else none
  ]
]
