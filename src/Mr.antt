-- ===== src/Mr.antt =====
-- mr/: the MapReduce master and worker.
pub mod Master
pub mod Tasks
pub mod Finish
pub mod Worker
pub mod Loop
pub mod Alone
pub mod Reducing
pub mod Lines
pub mod Whole
pub mod Shuffle
pub mod Gather
pub mod Rerun
pub mod Stays
mod WholeTests
mod Tests
