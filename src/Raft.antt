-- ===== src/Raft.antt =====
-- raft/raft.go and raft/persister.go: one Raft peer.
pub mod Types
pub mod Persist
pub mod AppendEntries
pub mod RequestVote
pub mod Node
pub mod Election
pub mod Heartbeat
pub mod Apply
pub mod Applied
pub mod Steps
pub mod Durable
pub mod Votes
pub mod Matching
pub mod Follows
pub mod Appended
pub mod Sending
pub mod Elected
pub mod Backtrack
pub mod Retry
pub mod Replies
pub mod Retried
pub mod Commit
mod Tests
mod ElectionTests
mod RetryTests
