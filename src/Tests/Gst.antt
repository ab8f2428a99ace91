-- ===== src/Tests/Gst.antt =====
-- Pipelines of GstManager.
use mathlib.Core.Path.{refl}
use ant_media_server_confere.Base.{
  ℕ, ◌≡◌, true, false, Option, none, some, List, [], ◌∷◌, ◌++◌, arith,
}
use ant_media_server_confere.Base.Exec.{done, emit}
use ant_media_server_confere.Platform.{
  Rtc, Call, gst_parse_launch, gst_sample_unref, gst_unmap, track_send, partial,
}
use ant_media_server_confere.Gst.State.{Gst, x86}
use ant_media_server_confere.Gst.Pipelines.{Method, start_video, video_description}
use ant_media_server_confere.Gst.Player.{destroy}
use ant_media_server_confere.Gst.Release.{emptied, unreffed, pointee, destroy-emptied}
use ant_media_server_confere.Gst.Partial.{start_video_partial}
use ant_media_server_confere.Gst.Samples.{Sample}
use ant_media_server_confere.Gst.Frames.{
  Sink, video_rtp, audio_aac, video_annexb, endings, all_ended, on_pulls, LeavesSamples,
  on_pulls-all_ended,
}
use ant_media_server_confere.Tests.Platform.{calm}

abbrev playing : Gst
playing = record {
  width = 720;
  height = 480;
  fps = 30;
  video_bitrate = 1000000;
  video_ssrc = 42;
  audio_ssrc = 43;
  video_pipeline = none;
  audio_pipeline = some 2;
  audio_player_pipeline = some 3;
  audio_app_src = some 4;
  on_video_rtp_frame = none;
  on_video_annexb_frame = none;
  on_audio_rtp_frame = none;
  on_audio_aac_frame = none;
  main_loop = true;
  main_thread = true;
}

destroy-emptied_example :
    (ds : List Call) × (destroy playing [] ≡ done tt (emptied playing) ds)
    × (unreffed ds
        ≡ pointee (some 3) ++ (pointee (some 4) ++ (pointee (some 2) ++ (pointee none ++ []))))
destroy-emptied_example = destroy-emptied playing [] (λ e. absurd (ground arith))

-- Libraries whose pipelines come with an error.
abbrev broken : Rtc
broken = record calm { launch = λ cs. partial }

start_video_partial_example :
    let held : Gst = record playing { video_pipeline = some 0 } in
    (start_video broken x86 playing []
      ≡ done tt held (gst_parse_launch (video_description x86 playing) ∷ []))
    × (start_video calm x86 held [] ≡ done tt held [])
start_video_partial_example = start_video_partial broken calm x86 playing [] [] refl refl

-- A frame is sent on the track with the number of the callback.
abbrev send_frame : ℕ → List ℕ → Method
send_frame callback bytes = emit (track_send callback bytes)

send_frame-LeavesSamples : LeavesSamples send_frame
unfolding emit
send_frame-LeavesSamples = record {
  leaves = λ callback bytes g cs. (track_send callback bytes ∷ cs, (refl, refl));
}

-- A sink with a callback, one without, a buffer that cannot be mapped, and a pull that gives nothing.
abbrev filming : Gst
filming = record playing { on_video_rtp_frame = some 7 }

abbrev pulls : List (Sink × Option Sample)
pulls =
    (video_rtp, some (record { number = 1; maps = true; bytes = 5 ∷ [] }))
    ∷ (audio_aac, some (record { number = 2; maps = true; bytes = [] }))
    ∷ (video_annexb, none)
    ∷ (video_rtp, some (record { number = 3; maps = false; bytes = [] }))
    ∷ []

on_pulls-all_ended_example :
    (ds : List Call) × ((on_pulls send_frame pulls filming [] ≡ done tt filming ds)
      × (endings ds ≡ all_ended filming pulls []))
on_pulls-all_ended_example = on_pulls-all_ended send_frame send_frame-LeavesSamples pulls filming []

three_ended :
    all_ended filming pulls []
    ≡ gst_sample_unref 3 ∷ gst_sample_unref 2 ∷ gst_sample_unref 1 ∷ gst_unmap 1 ∷ []
three_ended = refl
