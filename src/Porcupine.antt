-- ===== src/Porcupine.antt =====
-- porcupine/ and models/kv.go: the linearizability checker that the key/value tests use.
pub mod Model
pub mod Bitset
pub mod Bits
pub mod Members
pub mod Entries
pub mod Links
pub mod Checker
pub mod Parallel
pub mod Relink
pub mod Runs
pub mod Sound
pub mod Verdict
pub mod Renumber
pub mod Chain
pub mod Placed
pub mod Rounds
pub mod Moves
pub mod Measure
pub mod Linear
pub mod Built
pub mod Reads
pub mod Linearized
pub mod Sizes
pub mod Safe
pub mod Total
pub mod Operations
mod OperationTests
mod Tests
