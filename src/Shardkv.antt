-- ===== src/Shardkv.antt =====
-- shardkv/ and shardmaster/: the sharded clients.
pub mod Client
pub mod Answers
mod Tests
