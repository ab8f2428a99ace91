-- ===== src/Gst/Pipelines.antt =====
-- startVideo, stopVideo, startAudio, stopAudio and setupSink.
use ant_media_server_confere.Base.{ℕ, suc, ◌/◌, String, Option, none, some, List, [], ◌∷◌, ◌<>◌}
use ant_media_server_confere.Base.Decimal.{to_string}
use ant_media_server_confere.Base.Exec.{Exec, pure, gets, modify, emit, observe, when, ◌>>=◌, ◌>>◌}
use ant_media_server_confere.Platform.{
  Rtc, Call, gst_parse_launch, gst_connect, gst_add_probe, gst_get_by_name, gst_set_playing,
  gst_set_null, gst_object_unref, Launch, failed, partial, launched,
}
use ant_media_server_confere.Gst.State.{Gst, Target, x86, qcs610}

abbrev pub Method : Type 0
Method = Exec Gst Call (Unit {0})

-- The number that the next object gets.
abbrev pub count : List Call → ℕ
count [] = 0
count (c ∷ cs) = suc (count cs)

unfoldable pub video_description : Target → Gst → String
video_description qcs610 g =
    "qtiqmmfsrc ! video/x-raw,format=NV12,width="
    <> to_string g.width
    <> ",height="
    <> to_string g.height
    <> ",framerate="
    <> to_string g.fps
    <> "/1 ! omxh264enc periodicity-idr=1 interval-intraframes=29 control-rate=2 target-bitrate="
    <> to_string g.video_bitrate
    <> " b-frames=0 entropy-mode=0 ! video/x-h264,profile=baseline ! h264parse config-interval=1 ! "
    <> "video/x-h264,stream-format=byte-stream,alignment=au ! tee name=t_video "
    <> "t_video. ! queue ! appsink name=h264sink emit-signals=true sync=true "
    <> "t_video. ! queue ! rtph264pay config-interval=1 pt=96 ssrc="
    <> to_string g.video_ssrc
    <> " mtu=1200 ! appsink name=rtpsink emit-signals=true sync=false"
video_description x86 g =
    "videotestsrc is-live=true pattern=ball do-timestamp=true ! video/x-raw,width="
    <> to_string g.width
    <> ",height="
    <> to_string g.height
    <> ",framerate="
    <> to_string g.fps
    <> "/1 ! videoconvert ! textoverlay name=time_overlay halignment=right valignment=bottom "
    <> "font-desc=\"Sans, 24\" ! videoconvert ! queue ! video/x-raw,format=I420 ! "
    <> "x264enc tune=zerolatency key-int-max=30 speed-preset=ultrafast bitrate="
    <> to_string (g.video_bitrate / 1000)
    <> " ! h264parse config-interval=1 ! video/x-h264,stream-format=byte-stream,alignment=au ! "
    <> "tee name=t_video t_video. ! queue ! appsink name=h264sink emit-signals=true sync=false "
    <> "t_video. ! queue ! rtph264pay config-interval=1 pt=96 ssrc="
    <> to_string g.video_ssrc
    <> " mtu=1200 ! appsink name=rtpsink emit-signals=true sync=false"

unfoldable pub audio_description : Target → Gst → String
audio_description qcs610 g =
    "pulsesrc provide-clock=false ! audio/x-raw,format=S16LE,rate=48000,channels=1 ! "
    <> "tee name=t_audio t_audio. ! queue ! opusenc ! rtpopuspay pt=111 ssrc="
    <> to_string g.audio_ssrc
    <> " ! appsink name=rtpsink emit-signals=true sync=false t_audio. ! queue ! audioconvert ! "
    <> "audioresample ! audio/x-raw,format=F32LE,rate=44100,channels=1 ! avenc_aac ! aacparse ! "
    <> "appsink name=aacsink emit-signals=true sync=false"
audio_description x86 g =
    "pulsesrc ! queue ! audio/x-raw,format=S16LE,rate=48000,channels=1 ! "
    <> "audioconvert ! audioresample ! tee name=t_audio "
    <> "t_audio. ! queue ! opusenc ! rtpopuspay pt=111 ssrc="
    <> to_string g.audio_ssrc
    <> " ! appsink name=rtpsink emit-signals=true sync=false t_audio. ! queue ! audioconvert ! "
    <> "audioresample ! audio/x-raw,rate=44100,channels=1 ! voaacenc ! aacparse ! "
    <> "appsink name=aacsink emit-signals=true sync=false"

-- What stop does with a pipeline: state NULL, unref.
unfoldable pub release : ℕ → Method
release pipeline = do emit (gst_set_null pipeline); emit (gst_object_unref pipeline)

module _ (R : Rtc) where
  unfoldable pub setup_sink : ℕ → String → Method
  unfolding when
  setup_sink pipeline name = do
    sink ← observe count
    emit (gst_get_by_name pipeline name)
    found ← observe R.has_element
    when found (do emit (gst_connect sink name); emit (gst_object_unref sink))

  -- The probe that writes the time into the picture, on x86 only.
  unfoldable pub add_probe : Target → ℕ → Method
  unfolding when pure
  add_probe qcs610 pipeline = pure tt
  add_probe x86 pipeline = do
    overlay ← observe count
    emit (gst_get_by_name pipeline "time_overlay")
    found ← observe R.has_element
    when found (emit (gst_add_probe overlay))

  unfoldable pub play_video : Target → ℕ → Method
  unfolding setup_sink add_probe
  play_video target pipeline = do
    add_probe target pipeline
    setup_sink pipeline "rtpsink"
    setup_sink pipeline "h264sink"
    emit (gst_set_playing pipeline)

  unfoldable pub launched_video : Target → ℕ → Launch → Method
  unfolding play_video pure
  launched_video target pipeline failed = pure tt
  launched_video target pipeline partial = modify (λ g. record g { video_pipeline = some pipeline })
  launched_video target pipeline launched = do
    modify (λ g. record g { video_pipeline = some pipeline })
    play_video target pipeline

  unfoldable pub open_video : Target → Option ℕ → Method
  unfolding launched_video pure
  open_video target (some pipeline) = pure tt
  open_video target none = do
    g ← gets (λ g. g)
    pipeline ← observe count
    emit (gst_parse_launch (video_description target g))
    result ← observe R.launch
    launched_video target pipeline result

  unfoldable pub start_video : Target → Method
  unfolding open_video
  start_video target = do running ← gets (λ g. g.video_pipeline); open_video target running

  unfoldable pub play_audio : ℕ → Method
  unfolding setup_sink
  play_audio pipeline = do
    setup_sink pipeline "rtpsink"
    setup_sink pipeline "aacsink"
    emit (gst_set_playing pipeline)

  unfoldable pub launched_audio : ℕ → Launch → Method
  unfolding play_audio pure
  launched_audio pipeline failed = pure tt
  launched_audio pipeline partial = modify (λ g. record g { audio_pipeline = some pipeline })
  launched_audio pipeline launched = do
    modify (λ g. record g { audio_pipeline = some pipeline })
    play_audio pipeline

  unfoldable pub open_audio : Target → Option ℕ → Method
  unfolding launched_audio pure
  open_audio target (some pipeline) = pure tt
  open_audio target none = do
    g ← gets (λ g. g)
    pipeline ← observe count
    emit (gst_parse_launch (audio_description target g))
    result ← observe R.launch
    launched_audio pipeline result

  unfoldable pub start_audio : Target → Method
  unfolding open_audio
  start_audio target = do running ← gets (λ g. g.audio_pipeline); open_audio target running

unfoldable pub close_video : Option ℕ → Method
unfolding release pure
close_video none = pure tt
close_video (some pipeline) = do release pipeline; modify (λ g. record g { video_pipeline = none })

unfoldable pub stop_video : Method
unfolding close_video
stop_video = do running ← gets (λ g. g.video_pipeline); close_video running

unfoldable pub close_audio : Option ℕ → Method
unfolding release pure
close_audio none = pure tt
close_audio (some pipeline) = do release pipeline; modify (λ g. record g { audio_pipeline = none })

unfoldable pub stop_audio : Method
unfolding close_audio
stop_audio = do running ← gets (λ g. g.audio_pipeline); close_audio running
