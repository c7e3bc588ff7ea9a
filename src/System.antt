-- ===== src/System.antt =====
-- The SDK and the worker together: the blocks that a plugin dispatches, by daemon/worker.cpp, back to the
-- plugin.
pub mod Roundtrip
pub mod Traffic
pub mod Kept
pub mod InOrder
pub mod Joining
pub mod Single
pub mod Heard
pub mod Built
mod Tests
