-- ===== src/Manager.antt =====
-- WebRTCManager.h and WebRTCManager.cpp: the conference client. Its log lines and its
-- two mutexes are left out: each method and callback is one step.
pub mod State
pub mod Peers
pub mod Sdp
pub mod Offers
pub mod Chat
pub mod Events
pub mod Lifecycle
pub mod Running
pub mod Steps
pub mod Idle
pub mod Invariant
pub mod Plays
pub mod Removal
pub mod Candidates
pub mod Answers
pub mod Audio
pub mod Returns
