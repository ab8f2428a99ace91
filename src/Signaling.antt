-- ===== src/Signaling.antt =====
-- AMS_SFU_ConferenceSignaling.h and .cpp: the WebSocket, the command client that writes to it, and
-- the events that reach WebRTCManager. Its log lines are left out.
pub mod State
pub mod Dispatch
pub mod Link
