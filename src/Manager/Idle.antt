-- ===== src/Manager/Idle.antt =====
-- Starting and stopping: a manager holds nothing while it is not communicating.
pub mod Facts
pub mod Cleanup
pub mod Start
