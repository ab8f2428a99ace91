-- ===== src/Process.antt =====
-- main.cpp as a process: the thread of `main`, the console thread, signals and callbacks of the
-- libraries.
pub mod Threads
pub mod Ends
pub mod Begins
pub mod Steps
pub mod Order
pub mod Exit
pub mod Reads
pub mod Returns
