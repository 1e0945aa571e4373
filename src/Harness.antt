-- ===== src/Harness.antt =====
-- kvraft/config.go and raft/config.go: the harness that the tests of Raft and of the key/value service
-- run in.
pub mod Ends
pub mod Kv
pub mod Wiring
pub mod Partition
pub mod Halves
pub mod Minority
pub mod Peers
pub mod Committed
pub mod Isolation
pub mod Leaders
pub mod Accepted
mod Tests
mod PeerTests
