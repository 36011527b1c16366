-- ===== src/Loop.antt =====
-- include/async/loop.h, by what its functions do.
pub mod Lookup
pub mod Busy
pub mod Names
pub mod Types
pub mod Sync
pub mod Cleanup
pub mod Cycle
pub mod Wakeups
pub mod Tags
pub mod Valid
pub mod Invariant
pub mod Stacks
pub mod Slices
pub mod Nearer
pub mod Turns
