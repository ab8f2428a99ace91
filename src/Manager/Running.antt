-- ===== src/Manager/Running.antt =====
-- What holds of a manager that is communicating. Every callback keeps it, also one that throws.
pub mod Facts
pub mod Adding
pub mod Removing
pub mod Descriptions
pub mod Callbacks
