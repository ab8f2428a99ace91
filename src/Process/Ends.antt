-- ===== src/Process/Ends.antt =====
-- How the process ends once g_appRunning is false.
pub mod Facts
pub mod Console
pub mod Main
pub mod Rounds
