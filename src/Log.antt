-- ===== src/Log.antt =====
-- Log.cpp and Log.h: log files by date and by size, and what removes the old ones.
pub mod Bytes
pub mod System
pub mod Backup
pub mod Publish
pub mod Scan
pub mod Old
pub mod Expired
pub mod Names
pub mod Replay
pub mod Rotation
pub mod Returns
pub mod Rounds
pub mod Oldest
pub mod Signal
