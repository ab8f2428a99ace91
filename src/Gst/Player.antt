-- ===== src/Gst/Player.antt =====
-- startAudioPlayer, stopAudioPlayer, pushAudioFrame and the destructor. GStreamer refuses a call on
-- nullptr and gives nullptr, so the two calls after a failed launch are left out.
use ant_media_server_confere.Base.{ℕ, Bool, true, false, Option, none, some, List, if◌then◌else◌}
use ant_media_server_confere.Base.Exec.{pure, gets, modify, emit, observe, when, ◌>>=◌, ◌>>◌}
use ant_media_server_confere.Platform.{
  Rtc, gst_parse_launch, gst_get_by_name, gst_set_playing, gst_object_unref, gst_push_buffer,
  main_loop_new, main_loop_quit, main_loop_unref, main_thread_start, main_thread_join, Launch,
  failed, partial, launched,
}
use ant_media_server_confere.Gst.Pipelines.{Method, count, release, stop_video, stop_audio}

module _ (R : Rtc) where
  unfoldable pub play_player : ℕ → Method
  play_player pipeline = do
    source ← observe count
    emit (gst_get_by_name pipeline "audio_src")
    found ← observe R.has_element
    modify (λ g. record g {
      audio_player_pipeline = some pipeline;
      audio_app_src = if found then some source else none;
    })
    emit (gst_set_playing pipeline)

  -- Errors are not asked for, so a pipeline that comes with one is used as it is.
  unfoldable pub launched_player : ℕ → Launch → Method
  unfolding play_player
  launched_player pipeline failed =
      modify (λ g. record g { audio_player_pipeline = none; audio_app_src = none })
  launched_player pipeline partial = play_player pipeline
  launched_player pipeline launched = play_player pipeline

  unfoldable pub start_loop : Bool → Method
  unfolding pure
  start_loop true = pure tt
  start_loop false = do
    emit main_loop_new
    emit main_thread_start
    modify (λ g. record g { main_loop = true; main_thread = true })

  unfoldable pub open_player : Option ℕ → Method
  unfolding launched_player start_loop pure
  open_player (some pipeline) = pure tt
  open_player none = do
    pipeline ← observe count
    emit (
        gst_parse_launch
          "appsrc name=audio_src is-live=true format=time ! application/x-rtp,media=audio,clock-rate=48000,encoding-name=OPUS,payload=111 ! rtpjitterbuffer latency=200 ! rtpopusdepay ! opusdec ! audioconvert ! audioresample ! autoaudiosink")
    result ← observe R.launch
    launched_player pipeline result
    has_loop ← gets (λ g. g.main_loop)
    start_loop has_loop

  unfoldable pub start_audio_player : Method
  unfolding open_player
  start_audio_player = do running ← gets (λ g. g.audio_player_pipeline); open_player running

  unfoldable pub push_to : Option ℕ → List ℕ → Method
  unfolding when pure
  push_to none bytes = pure tt
  push_to (some source) bytes = do
    allocated ← observe R.allocates
    when allocated (emit (gst_push_buffer source bytes))

  unfoldable pub push_audio_frame : List ℕ → Method
  unfolding push_to
  push_audio_frame bytes = do source ← gets (λ g. g.audio_app_src); push_to source bytes

unfoldable pub close_source : Option ℕ → Method
unfolding pure
close_source none = pure tt
close_source (some source) = do
  emit (gst_object_unref source)
  modify (λ g. record g { audio_app_src = none })

unfoldable pub close_player : Option ℕ → Method
unfolding close_source release pure
close_player none = pure tt
close_player (some pipeline) = do
  source ← gets (λ g. g.audio_app_src)
  close_source source
  release pipeline
  modify (λ g. record g { audio_player_pipeline = none })

unfoldable pub stop_audio_player : Method
unfolding close_player
stop_audio_player = do running ← gets (λ g. g.audio_player_pipeline); close_player running

unfoldable pub destroy : Method
unfolding stop_video stop_audio stop_audio_player when
destroy = do
  stop_video
  stop_audio
  stop_audio_player
  has_loop ← gets (λ g. g.main_loop)
  when has_loop (emit main_loop_quit)
  joinable ← gets (λ g. g.main_thread)
  when joinable (do emit main_thread_join; modify (λ g. record g { main_thread = false }))
  when has_loop (do emit main_loop_unref; modify (λ g. record g { main_loop = false }))
