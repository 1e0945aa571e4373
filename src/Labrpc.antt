-- ===== src/Labrpc.antt =====
-- labrpc/: the simulated network.
pub mod Network
pub mod Request
pub mod Delivery
mod Tests
