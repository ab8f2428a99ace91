-- ===== src/Command.antt =====
-- AMS_SFU_ConferenceSignalingCommand.h and .cpp: the client object that turns signaling commands
-- into JSON texts. Its log lines are left out.
pub mod Outgoing
pub mod Incoming
pub mod State
