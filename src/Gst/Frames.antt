-- ===== src/Gst/Frames.antt =====
-- Samples in a row at the four appsinks, from onVideoRTPSample to onAudioAACSample.
use mathlib.Core.Path.{refl}
use ant_media_server_confere.Base.{
  ℕ, ◌≡◌, ◌∙◌, ap, true, false, Option, none, some, List, [], ◌∷◌, inl, inr, Bool-cases,
}
use ant_media_server_confere.Base.Exec.{done, pure, gets, emit, when, bind_done, ◌>>=◌, ◌>>◌}
use ant_media_server_confere.Platform.{Call, gst_sample_unref, gst_unmap}
use ant_media_server_confere.Gst.State.{Gst}
use ant_media_server_confere.Gst.Pipelines.{Method}
use ant_media_server_confere.Gst.Samples.{
  Sample, deliver, on_sample, on_video_rtp_sample, on_video_annexb_sample, on_audio_rtp_sample,
  on_audio_aac_sample,
}

pub data Sink : Type 0 where
  video_rtp video_annexb audio_rtp audio_aac : Sink

-- The function that is set for the frames of a sink.
abbrev pub callback_of : Gst → Sink → Option ℕ
callback_of g video_rtp = g.on_video_rtp_frame
callback_of g video_annexb = g.on_video_annexb_frame
callback_of g audio_rtp = g.on_audio_rtp_frame
callback_of g audio_aac = g.on_audio_aac_frame

-- The calls that end the use of a sample or of its bytes.
abbrev pub endings : List Call → List Call
endings [] = []
endings (gst_unmap sample ∷ cs) = gst_unmap sample ∷ endings cs
endings (gst_sample_unref sample ∷ cs) = gst_sample_unref sample ∷ endings cs
endings (_ ∷ cs) = endings cs

-- How the use of one sample ends: its bytes are given back if they were taken, and then the sample.
abbrev pub ended : Option ℕ → Sample → List Call → List Call
ended none sample cs = gst_sample_unref sample.number ∷ cs
ended (some callback) sample cs = elim sample.maps [
  | true ↦ gst_sample_unref sample.number ∷ gst_unmap sample.number ∷ cs
  | false ↦ gst_sample_unref sample.number ∷ cs
]

-- What a list of pulls ends, newest first.
abbrev pub all_ended : Gst → List (Sink × Option Sample) → List Call → List Call
all_ended g [] cs = cs
all_ended g ((sink, none) ∷ pulls) cs = all_ended g pulls cs
all_ended g ((sink, some sample) ∷ pulls) cs =
    all_ended g pulls (ended (callback_of g sink) sample cs)

module _ (invoke : ℕ → List ℕ → Method) where
  abbrev pub on_pull : Sink → Option Sample → Method
  on_pull video_rtp = on_video_rtp_sample invoke
  on_pull video_annexb = on_video_annexb_sample invoke
  on_pull audio_rtp = on_audio_rtp_sample invoke
  on_pull audio_aac = on_audio_aac_sample invoke

  abbrev pub on_pulls : List (Sink × Option Sample) → Method
  on_pulls [] = pure tt
  on_pulls ((sink, pulled) ∷ pulls) = on_pull sink pulled >> on_pulls pulls

  -- A FrameCallback returns, leaves GstManager as it is, and ends the use of no sample.
  pub record LeavesSamples : Type 0 where
    pub leaves :
        (callback : ℕ) (bytes : List ℕ) (g : Gst) (cs : List Call)
        → (ds : List Call) × ((invoke callback bytes g cs ≡ done tt g ds)
            × (endings ds ≡ endings cs))

  module _ (frames : LeavesSamples) where
    abbrev Ends : Method → Gst → List Call → List Call → Type 0
    Ends m g cs es = (ds : List Call) × ((m g cs ≡ done tt g ds) × (endings ds ≡ es))

    on_sample-Ends :
        (callback : Option ℕ) (sample : Sample) (g : Gst) (cs : List Call)
        → Ends (on_sample invoke callback (some sample)) g cs (ended callback sample (endings cs))
    unfolding on_sample deliver when pure emit ◌>>=◌
    on_sample-Ends none sample g cs = (_, (refl, refl))
    on_sample-Ends (some callback) sample g cs = elim (Bool-cases sample.maps) [
      | inr unmapped ↦ rw unmapped (_, (refl, refl))
      | inl mapped ↦
          let (ds, (e, same)) = frames.leaves callback sample.bytes g cs in
          let unmap : Method = emit (gst_unmap sample.number) in
          let whole : Method = invoke callback sample.bytes >> unmap in
          let unref : Method = emit (gst_sample_unref sample.number) in
          rw mapped (
            gst_sample_unref sample.number ∷ gst_unmap sample.number ∷ ds,
            (
              bind_done whole (λ _. unref) g cs
                  (bind_done (invoke callback sample.bytes) (λ _. unmap) g cs e),
              ap (λ es. gst_sample_unref sample.number ∷ gst_unmap sample.number ∷ es) same,
            ),
          )
    ]

    on_pull-Ends :
        (sink : Sink) (sample : Sample) (g : Gst) (cs : List Call)
        → Ends (on_pull sink (some sample)) g cs (ended (callback_of g sink) sample (endings cs))
    unfolding on_video_rtp_sample on_video_annexb_sample on_audio_rtp_sample on_audio_aac_sample
        gets ◌>>=◌
    on_pull-Ends video_rtp sample g cs = on_sample-Ends g.on_video_rtp_frame sample g cs
    on_pull-Ends video_annexb sample g cs = on_sample-Ends g.on_video_annexb_frame sample g cs
    on_pull-Ends audio_rtp sample g cs = on_sample-Ends g.on_audio_rtp_frame sample g cs
    on_pull-Ends audio_aac sample g cs = on_sample-Ends g.on_audio_aac_frame sample g cs

    no_sample : (sink : Sink) (g : Gst) (cs : List Call) → on_pull sink none g cs ≡ done tt g cs
    unfolding on_video_rtp_sample on_video_annexb_sample on_audio_rtp_sample on_audio_aac_sample
        on_sample gets pure ◌>>=◌
    no_sample video_rtp g cs = refl
    no_sample video_annexb g cs = refl
    no_sample audio_rtp g cs = refl
    no_sample audio_aac g cs = refl

    -- Samples pulled in a row at the four appsinks, with frame callbacks that return, leave
    -- GstManager as it is and end the use of no sample: every sample that was pulled is given back
    -- once, in the order of the pulls, whether or not a callback is set and its buffer can be mapped.
    -- Its bytes are given back just before it if a callback is set for its sink and the buffer can
    -- be mapped, and not otherwise. A pull that gives no sample ends nothing.
    pub on_pulls-all_ended :
        (pulls : List (Sink × Option Sample)) (g : Gst) (cs : List Call)
        → (ds : List Call) × ((on_pulls pulls g cs ≡ done tt g ds)
            × (endings ds ≡ all_ended g pulls (endings cs)))
    unfolding pure
    on_pulls-all_ended [] g cs = (cs, (refl, refl))
    on_pulls-all_ended ((sink, none) ∷ pulls) g cs =
        let (ds, (e, same)) = on_pulls-all_ended pulls g cs in
        (
          ds,
          (
            bind_done (on_pull sink none) (λ _. on_pulls pulls) g cs (no_sample sink g cs) ∙ e,
            same,
          ),
        )
    on_pulls-all_ended ((sink, some sample) ∷ pulls) g cs =
        let (es, (e, one)) = on_pull-Ends sink sample g cs in
        let (ds, (f, rest)) = on_pulls-all_ended pulls g es in
        (
          ds,
          (
            bind_done (on_pull sink (some sample)) (λ _. on_pulls pulls) g cs e ∙ f,
            rest ∙ ap (all_ended g pulls) one,
          ),
        )
