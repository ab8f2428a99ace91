-- ===== src/Gst/Partial.antt =====
-- A pipeline that gst_parse_launch gives together with an error.
use mathlib.Core.Path.{refl}
use ant_media_server_confere.Base.{ℕ, ◌≡◌, ap, ◌∙◌, none, some, List, ◌∷◌}
use ant_media_server_confere.Base.Exec.{done, pure, gets, modify, emit, observe, bind_done, ◌>>=◌}
use ant_media_server_confere.Platform.{Rtc, Call, gst_parse_launch, partial}
use ant_media_server_confere.Gst.State.{Gst, Target}
use ant_media_server_confere.Gst.Pipelines.{
  count, video_description, launched_video, open_video, start_video,
}

start_video_running :
    (R : Rtc) (target : Target) (pipeline : ℕ) (g : Gst) (cs : List Call)
    → g.video_pipeline ≡ some pipeline
    → start_video R target g cs ≡ done tt g cs
unfolding start_video open_video gets pure ◌>>=◌
start_video_running R target pipeline g cs e = simp e

-- If the launch of the video gives a pipeline with an error, startVideo returns with the pipeline
-- held and without having set it to playing, and whatever the libraries answer later, startVideo
-- does nothing more.
pub start_video_partial :
    (R later : Rtc) (target : Target) (g : Gst) (cs ds : List Call)
    → g.video_pipeline ≡ none
    → R.launch (gst_parse_launch (video_description target g) ∷ cs) ≡ partial
    → let held : Gst = record g { video_pipeline = some (count cs) } in
      (start_video R target g cs
        ≡ done tt held (gst_parse_launch (video_description target g) ∷ cs))
      × (start_video later target held ds ≡ done tt held ds)
unfolding start_video open_video launched_video gets observe emit modify
start_video_partial R later target g cs ds idle broken =
    let parsed : List Call = gst_parse_launch (video_description target g) ∷ cs in
    (
      bind_done _ _ g cs refl
          ∙ ap (λ p. open_video R target p g cs) idle
          ∙ bind_done _ _ g cs refl
          ∙ bind_done _ _ g cs refl
          ∙ bind_done _ _ g cs refl
          ∙ bind_done _ _ g parsed refl
          ∙ ap (λ r. launched_video R target (count cs) r g parsed) broken,
      start_video_running later target (count cs) (record g { video_pipeline = some (count cs) }) ds
          refl,
    )
