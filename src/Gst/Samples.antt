-- ===== src/Gst/Samples.antt =====
-- The callbacks of the four appsinks.
use ant_media_server_confere.Base.{ℕ, Bool, Option, none, some, List}
use ant_media_server_confere.Base.Exec.{pure, gets, emit, when, ◌>>=◌, ◌>>◌}
use ant_media_server_confere.Platform.{gst_sample_unref, gst_unmap}
use ant_media_server_confere.Gst.Pipelines.{Method}

-- What gst_app_sink_pull_sample gives: the sample's number, whether its buffer can be mapped, and
-- its bytes.
pub record Sample : Type 0 where
  pub number : ℕ
  pub maps : Bool
  pub bytes : List ℕ

-- `invoke` runs the function of a FrameCallback on a frame.
module _ (invoke : ℕ → List ℕ → Method) where
  unfoldable pub deliver : Option ℕ → Sample → Method
  unfolding when pure
  deliver none sample = pure tt
  deliver (some callback) sample =
      when sample.maps (do invoke callback sample.bytes; emit (gst_unmap sample.number))

  unfoldable pub on_sample : Option ℕ → Option Sample → Method
  unfolding deliver pure
  on_sample callback none = pure tt
  on_sample callback (some sample) = do
    deliver callback sample
    emit (gst_sample_unref sample.number)

  unfoldable pub on_video_rtp_sample : Option Sample → Method
  unfolding on_sample
  on_video_rtp_sample sample = do
    callback ← gets (λ g. g.on_video_rtp_frame)
    on_sample callback sample

  unfoldable pub on_video_annexb_sample : Option Sample → Method
  unfolding on_sample
  on_video_annexb_sample sample = do
    callback ← gets (λ g. g.on_video_annexb_frame)
    on_sample callback sample

  unfoldable pub on_audio_rtp_sample : Option Sample → Method
  unfolding on_sample
  on_audio_rtp_sample sample = do
    callback ← gets (λ g. g.on_audio_rtp_frame)
    on_sample callback sample

  unfoldable pub on_audio_aac_sample : Option Sample → Method
  unfolding on_sample
  on_audio_aac_sample sample = do
    callback ← gets (λ g. g.on_audio_aac_frame)
    on_sample callback sample
