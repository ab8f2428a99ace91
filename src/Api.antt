-- ===== src/Api.antt =====
-- WebRTC_API.cpp: the one manager of the process and the functions that forward to it, and the part
-- of main.cpp that calls them.
pub mod Instance
pub mod Settings
