-- ===== src/Daemon.antt =====
-- The parts of daemon/src/main.cpp.
pub mod SpscQueue
pub mod Bus
pub mod State
pub mod Outgoing
pub mod Epochs
pub mod Handlers
pub mod Frames
pub mod Poll
pub mod Outputs
