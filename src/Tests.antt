-- ===== src/Tests.antt =====
-- The theorems at concrete inputs, and the libraries that they are run with.
pub mod Platform
pub mod Manager
pub mod Gst
pub mod Protocol
pub mod Labels
pub mod Console
pub mod Log
pub mod LogLines
pub mod Api
pub mod Process
pub mod Offers
