-- ===== src/Kvraft.antt =====
-- kvraft/: the key/value service that is replicated through Raft, and its clerk.
pub mod Types
pub mod Server
pub mod Spec
pub mod Applied
pub mod Service
pub mod Reads
pub mod Clerk
pub mod Retries
pub mod Calls
mod Tests
mod ClerkTests
