-- ===== src/Central.antt =====
-- The central database: src/db/agent-groups.ts, messaging-groups.ts, sessions.ts,
-- channel-accounts.ts and dropped-messages.ts, and the destinations of
-- src/modules/agent-to-agent/db/agent-destinations.ts.
mod Rows
pub mod Names
pub mod Decimal
mod Sessions
mod Chats
mod Destinations
mod Dropped
pub mod Wiring
pub use Rows.*
unfoldable pub use Sessions.*
unfoldable pub use Chats.*
unfoldable pub use Destinations.*
unfoldable pub use Dropped.*
