-- ===== src/Gst.antt =====
-- GstManager.h and GstManager.cpp: the GStreamer pipelines. Its log lines are left out.
pub mod State
pub mod Pipelines
pub mod Player
pub mod Samples
pub mod Frames
pub mod Release
pub mod Partial
