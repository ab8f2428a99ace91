-- ===== src/Gst/Release.antt =====
-- What the destructor of GstManager gives back.
use mathlib.Core.Path.{refl}
use ant_media_server_confere.Base.{
  ℕ, ◌≡◌, ◌∙◌, Bool, true, false, Option, none, some, List, [], ◌∷◌, ◌++◌, arith,
}
use ant_media_server_confere.Base.Exec.{
  done, pure, gets, modify, emit, when, bind_done, ◌>>=◌, ◌>>◌,
}
use ant_media_server_confere.Platform.{
  Call, gst_set_null, gst_object_unref, main_loop_quit, main_loop_unref, main_thread_join,
}
use ant_media_server_confere.Gst.State.{Gst}
use ant_media_server_confere.Gst.Pipelines.{
  Method, release, close_video, stop_video, close_audio, stop_audio,
}
use ant_media_server_confere.Gst.Player.{close_source, close_player, stop_audio_player, destroy}

-- The objects that were given back, newest first.
abbrev pub unreffed : List Call → List ℕ
unreffed [] = []
unreffed (gst_object_unref object ∷ cs) = object ∷ unreffed cs
unreffed (_ ∷ cs) = unreffed cs

-- A pointer as the list of what it points to.
abbrev pub pointee : Option ℕ → List ℕ
pointee none = []
pointee (some object) = object ∷ []

-- The source of the player is held only with the player.
abbrev pub HasPlayer : Gst → Type 0
HasPlayer g = g.audio_player_pipeline ≡ none → g.audio_app_src ≡ none

-- GstManager with no pipeline, no source, no loop and no thread.
abbrev pub emptied : Gst → Gst
emptied g = record g {
  video_pipeline = none;
  audio_pipeline = none;
  audio_player_pipeline = none;
  audio_app_src = none;
  main_loop = false;
  main_thread = false;
}

-- The calls that give a pipeline back.
abbrev pub gave_back : Option ℕ → List Call → List Call
gave_back none cs = cs
gave_back (some pipeline) cs = gst_object_unref pipeline ∷ gst_set_null pipeline ∷ cs

unreffed-gave_back :
    (p : Option ℕ) (cs : List Call) → unreffed (gave_back p cs) ≡ pointee p ++ unreffed cs
unreffed-gave_back none cs = refl
unreffed-gave_back (some pipeline) cs = refl

close_video_lem :
    (p : Option ℕ) (g : Gst) (cs : List Call)
    → g.video_pipeline ≡ p
    → close_video p g cs ≡ done tt (record g { video_pipeline = none }) (gave_back p cs)
unfolding close_video pure release emit modify ◌>>=◌
close_video_lem none g cs e = ground arith
close_video_lem (some pipeline) g cs e = refl

close_audio_lem :
    (p : Option ℕ) (g : Gst) (cs : List Call)
    → g.audio_pipeline ≡ p
    → close_audio p g cs ≡ done tt (record g { audio_pipeline = none }) (gave_back p cs)
unfolding close_audio pure release emit modify ◌>>=◌
close_audio_lem none g cs e = ground arith
close_audio_lem (some pipeline) g cs e = refl

-- The calls that give the source of the player back.
abbrev gave_source : Option ℕ → List Call → List Call
gave_source none cs = cs
gave_source (some source) cs = gst_object_unref source ∷ cs

close_source_lem :
    (p : Option ℕ) (g : Gst) (cs : List Call)
    → g.audio_app_src ≡ p
    → close_source p g cs ≡ done tt (record g { audio_app_src = none }) (gave_source p cs)
unfolding close_source pure emit modify ◌>>=◌
close_source_lem none g cs e = ground arith
close_source_lem (some source) g cs e = refl

-- The state and the calls after stopAudioPlayer.
abbrev without_player : Gst → Gst
without_player g = record g { audio_player_pipeline = none; audio_app_src = none }

close_player_lem :
    (p : Option ℕ) (g : Gst) (cs : List Call)
    → g.audio_player_pipeline ≡ p
    → HasPlayer g
    → close_player p g cs
      ≡ done tt (without_player g) (gave_back p (gave_source g.audio_app_src cs))
unfolding close_player pure release emit modify gets
close_player_lem none g cs e has = ground (arith, has e)
close_player_lem (some pipeline) g cs e has =
    bind_done _ _ g cs refl
    ∙ bind_done _ _ g cs (close_source_lem g.audio_app_src g cs refl)
    ∙ bind_done _ _ (record g { audio_app_src = none }) _ (bind_done _ _ _ _ refl)

-- The calls on the loop and the thread.
abbrev ended : Bool → Bool → List Call → List Call
ended true true cs = main_loop_unref ∷ main_thread_join ∷ main_loop_quit ∷ cs
ended true false cs = main_loop_unref ∷ main_loop_quit ∷ cs
ended false true cs = main_thread_join ∷ cs
ended false false cs = cs

unreffed-ended :
    (loop thread : Bool) (cs : List Call) → unreffed (ended loop thread cs) ≡ unreffed cs
unreffed-ended true true cs = refl
unreffed-ended true false cs = refl
unreffed-ended false true cs = refl
unreffed-ended false false cs = refl

-- The destructor from its first test on.
abbrev end_loop : Method
end_loop = do
  has_loop ← gets (λ g. g.main_loop)
  when has_loop (emit main_loop_quit)
  joinable ← gets (λ g. g.main_thread)
  when joinable (do emit main_thread_join; modify (λ g. record g { main_thread = false }))
  when has_loop (do emit main_loop_unref; modify (λ g. record g { main_loop = false }))

end_loop_lem :
    (loop thread : Bool) (g : Gst) (cs : List Call)
    → g.main_loop ≡ loop
    → g.main_thread ≡ thread
    → end_loop g cs
      ≡ done tt (record g { main_loop = false; main_thread = false }) (ended loop thread cs)
unfolding gets emit modify when pure ◌>>=◌
end_loop_lem true true g cs e f = ground arith
end_loop_lem true false g cs e f = ground arith
end_loop_lem false true g cs e f = ground arith
end_loop_lem false false g cs e f = ground arith

unreffed-gave_source :
    (p : Option ℕ) (cs : List Call) → unreffed (gave_source p cs) ≡ pointee p ++ unreffed cs
unreffed-gave_source none cs = refl
unreffed-gave_source (some source) cs = refl

-- If the source of the player is held only with the player, the destructor returns: every pointer
-- is null, the loop has ended, and the player, its source and the two pipelines are given back once each.
pub destroy-emptied :
    (g : Gst) (cs : List Call)
    → HasPlayer g
    → (ds : List Call) × (destroy g cs ≡ done tt (emptied g) ds)
      × (unreffed ds
          ≡ pointee g.audio_player_pipeline
            ++ (pointee g.audio_app_src
                ++ (pointee g.audio_pipeline ++ (pointee g.video_pipeline ++ unreffed cs))))
unfolding destroy stop_video stop_audio stop_audio_player gets
destroy-emptied g cs has =
    let g₁ : Gst = record g { video_pipeline = none } in
    let cs₁ : List Call = gave_back g.video_pipeline cs in
    let g₂ : Gst = record g₁ { audio_pipeline = none } in
    let cs₂ : List Call = gave_back g.audio_pipeline cs₁ in
    let cs₃ : List Call = gave_back g.audio_player_pipeline (gave_source g.audio_app_src cs₂) in
    (
      ended g.main_loop g.main_thread cs₃,
      bind_done _ _ g cs (bind_done _ _ g cs refl ∙ close_video_lem g.video_pipeline g cs refl)
          ∙ bind_done _ _ g₁ cs₁
              (bind_done _ _ g₁ cs₁ refl ∙ close_audio_lem g.audio_pipeline g₁ cs₁ refl)
          ∙ bind_done _ _ g₂ cs₂
              (bind_done _ _ g₂ cs₂ refl ∙ close_player_lem g.audio_player_pipeline g₂ cs₂ refl has)
          ∙ end_loop_lem g.main_loop g.main_thread (without_player g₂) cs₃ refl refl,
      rw
          (
            unreffed-ended,
            unreffed-gave_back g.audio_player_pipeline,
            unreffed-gave_source,
            unreffed-gave_back g.audio_pipeline,
            unreffed-gave_back g.video_pipeline,
          )
          refl,
    )
