-- ===== src/Process/Reads.antt =====
-- One read of the console thread, against what its lines mean for the program.
pub mod Facts
pub mod Loop
