-- ===== src/Gst/State.antt =====
-- The members of GstManager and its constructor. A pointer to a GStreamer object is the number of
-- the object, or `none` for nullptr; a FrameCallback is the number of the function, or `none`.
use ant_media_server_confere.Base.{ℕ, Bool, false, Option, none}

-- PLATFORM_NUM.
pub data Target : Type 0 where
  x86 qcs610 : Target

pub record Gst : Type 0 where
  pub width : ℕ
  pub height : ℕ
  pub fps : ℕ
  pub video_bitrate : ℕ
  pub video_ssrc : ℕ
  pub audio_ssrc : ℕ
  pub video_pipeline : Option ℕ
  pub audio_pipeline : Option ℕ
  pub audio_player_pipeline : Option ℕ
  pub audio_app_src : Option ℕ
  pub on_video_rtp_frame : Option ℕ
  pub on_video_annexb_frame : Option ℕ
  pub on_audio_rtp_frame : Option ℕ
  pub on_audio_aac_frame : Option ℕ
  -- mainLoop_ is not null, and mainThread_ is joinable.
  pub main_loop : Bool
  pub main_thread : Bool

unfoldable pub create : ℕ → ℕ → ℕ → ℕ → ℕ → ℕ → Gst
create width height fps video_bitrate video_ssrc audio_ssrc = record {
  width = width;
  height = height;
  fps = fps;
  video_bitrate = video_bitrate;
  video_ssrc = video_ssrc;
  audio_ssrc = audio_ssrc;
  video_pipeline = none;
  audio_pipeline = none;
  audio_player_pipeline = none;
  audio_app_src = none;
  on_video_rtp_frame = none;
  on_video_annexb_frame = none;
  on_audio_rtp_frame = none;
  on_audio_aac_frame = none;
  main_loop = false;
  main_thread = false;
}
