-- ===== src/Lib.antt =====
-- Clawie runs personal agents in containers and talks to their users through chat platforms. A
-- host process routes each message from a channel adapter to sessions, one or more for a message;
-- a session is a pair of SQLite files that the host and one container share. The container polls
-- its inbound file, runs an agent, and writes messages out; the host polls the outbound files and
-- delivers. This library models the host's core and the container's side of the two files.
--
-- The parts, their sources, and the files that model them:
--   * src/db/session-db.ts and src/db/schema.ts: SessionDb.antt. `InboundDb` and `OutboundDb` are
--     the tables as lists of rows in insertion order, one function for each statement.
--   * container/agent-runner/src/db: AgentRunner.antt. The container's statements. AgentRunner/Seq
--     and AgentRunner/Steps are about the numbering of messages over interleaved writes.
--   * container/agent-runner/src/poll-loop.ts, `dispatchResultText`, with formatter.ts and
--     destinations.ts: AgentRunner/Output.antt.
--   * src/db/agent-groups.ts, sessions.ts, messaging-groups.ts, channel-accounts.ts,
--     dropped-messages.ts and src/modules/agent-to-agent/db: Central.antt, which
--     passes on the rows (Central/Rows) and the statements (Central/Sessions, Chats, Destinations
--     and Dropped). Central/Names has `normalizeName`; Central/Decimal and Central/Wiring are about
--     the names that a wiring's destination may get.
--   * src/router.ts: Router.antt (engaging and delivering to one agent), Router/Loop.antt (the loop
--     over the wired agents) and Router/Inbound.antt (`routeInbound`). The hooks that modules
--     register are fields of `Hooks`.
--   * src/session-manager.ts: SessionManager.antt. `Host` holds the central database and the two
--     files of every session.
--   * src/command-gate.ts: CommandGate.antt.
--   * src/modules/permissions and `pickApprover` of src/modules/approvals: Permissions.antt (users,
--     roles, members), Permissions/Gates.antt (the router's gates), Permissions/Gates/Senders.antt
--     (who sent a message) and Permissions/Gates/Cards.antt (the card about an unknown sender).
--   * src/modules/approvals: Approvals.antt, Approvals/Requests.antt and Approvals/Responses.antt;
--     src/modules/permissions/user-dm.ts, which finds the chats that cards go to: UserDm.antt.
--   * src/delivery.ts: Delivery.antt (the drain), Delivery/State.antt (`DeliveryState`, which a drain
--     reads and writes), Delivery/Message.antt (`deliverMessage`)
--     and Delivery/Polls.antt (the two polls, step by step).
--   * src/host-sweep.ts: Sweep.antt.
--   * src/modules/scheduling: Scheduling.antt; Scheduling/Series and Scheduling/Recurrence are about
--     series of tasks.
--   * src/container-runner.ts: ContainerRunner.antt, the maps of the module and one function for each
--     event. ContainerRunner/Alone has the events in any order.
--   * src/channels/telegram-pairing.ts: Pairing.antt (requests) and Pairing/Consume.antt (messages).
--   * src/cli: Cli.antt (frames, registry, arguments) and Cli/Dispatch.antt (the dispatcher).
--   * src/modules/mount-security: MountSecurity.antt. MountSecurity/Granted is about what a container
--     gets.
--   * src/attachment-safety.ts, attachment-naming.ts, group-folder.ts and platform-id.ts: Paths.antt.
--   * src/circuit-breaker.ts: CircuitBreaker.antt, and CircuitBreaker/Streak.antt for histories of
--     starts and clean shutdowns.
--   * src/modules/agent-to-agent/agent-route.ts: AgentRoute.antt.
--   * src/channels/adapter.ts: Inbound.antt. JSON texts, as what `JSON.parse` makes of them: Json.antt.
-- Prelude.antt passes on the names that the files share and has the SQL statements on lists
-- (Prelude/Table.antt). Tests.antt is a small installation on which the theorems are applied.
--
-- How the code is modelled. An exception is `none`, or a flag beside what was written before it. A
-- timestamp is the instant that it denotes, in milliseconds, or an unreadable text; SQL's now and
-- JavaScript's are one clock, and where SQL compares timestamps as texts the instants are
-- compared. Ids that the source draws at random are arguments. What a platform, the file system, a
-- regular expression or another module answers is a field of a record of parameters: `Outside` in
-- Delivery, `Gateway` and `Hooks` in Router, `Courier` in AgentRoute, `Surroundings` in Sweep; a
-- command of the command line is a field of functions in `CommandDef`, and random draws are a
-- list; `Files` in MountSecurity is the file system and Node's paths, `Platforms` in UserDm the
-- adapters, `Desk` in Approvals what a request takes from outside, and `Turn` in
-- AgentRunner/Output what the container has. An asynchronous call is one step, at the place where
-- it is made, but in ContainerRunner, where each continuation is a step, in Delivery/Polls, where
-- each message is, and in Permissions/InFlight and Approvals/Clicks, where a request for a sender
-- and a click on a card are two halves around what they await. A system action of an agent changes
-- the databases of its session only, in the middle of a drain.
--
-- Loops are recursion on the list that they run over. Some have fuel: `free_name`, with one more
-- round than there are destinations, since the names that it tries differ from each other;
-- `print_decimal`, with one more round than the number, since a numeral has no more digits than
-- its value; and the loops over an agent's final text, with a round for each character.
--
-- Not modelled: the processes of containers, the channel adapters, typing and logging, the writing
-- of attachments, the requests for credentials, migrations, the transports of the command line,
-- set-up and the web front end, which are I/O or glue around the parts above.
pub mod AgentRoute
pub mod AgentRunner
pub mod Approvals
pub mod Central
pub mod CircuitBreaker
pub mod Cli
pub mod CommandGate
pub mod ContainerRunner
pub mod Delivery
pub mod Inbound
pub mod Json
pub mod MountSecurity
pub mod Pairing
pub mod Paths
pub mod Permissions
pub mod Prelude
pub mod Router
pub mod Scheduling
pub mod SessionDb
pub mod SessionManager
pub mod Sweep
pub mod Tests
pub mod UserDm
