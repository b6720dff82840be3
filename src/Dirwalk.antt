-- ===== src/Dirwalk.antt =====
-- lab_02: a directory walk on an explicit stack, with file statistics.
pub mod Memory
pub mod Stack
pub mod Stats
pub mod Files
pub mod Interface
pub mod Linked
pub mod Walk
pub mod Program
pub mod Order
mod Samples
mod Tests
