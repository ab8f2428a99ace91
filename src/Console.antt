-- ===== src/Console.antt =====
-- The console thread of main.cpp, and the lambda that `main` gives to it.
pub mod Input
pub mod Lines
