-- ===== src/Process/Order.antt =====
-- The order of the threads in every run of the process.
pub mod Facts
pub mod Console
pub mod Main
pub mod Runs
