-- ===== src/Manager/Audio.antt =====
-- What iamtalking and iammute do to the sound that is played.
use mathlib.Core.Path.{refl}
use ant_media_server_confere.Base.{
  ℕ, String, ◌≡◌, Bool, List, Bool-cases, inl, inr, ◌==◌, some, none, Option,
}
use ant_media_server_confere.Base.Dict.{Dict}
use ant_media_server_confere.Base.Exec.{Outcome, done, thrown, calls, gets, on_part, embed, ◌>>=◌}
use ant_media_server_confere.Platform.{JsonLib, Rtc, Call}
use ant_media_server_confere.Gst.State.{Gst}
use ant_media_server_confere.Gst.Player.{push_audio_frame}
use ant_media_server_confere.Manager.State.{Manager}
use ant_media_server_confere.Manager.Peers.{on_track_message}

calls-embed :
    (f g : Gst → Manager) (o : Outcome Gst Call (Unit {0})) → calls (embed f o) ≡ calls (embed g o)
calls-embed f g (done a t cs) = refl
calls-embed f g (thrown t cs) = refl

calls-on_part :
    (o : Option Gst) (f g : Gst → Manager) (m : Manager) (n : Manager) (cs : List Call)
    (x : Gst → List Call → Outcome Gst Call (Unit {0}))
    → calls (on_part tt o f x m cs) ≡ calls (on_part tt o g x n cs)
calls-on_part none f g m n cs x = refl
calls-on_part (some t) f g m n cs x = calls-embed f g (x t cs)

module _ (J : JsonLib) (R : Rtc) where
  -- What is pushed to the player for a packet of a stream does not depend on the talking flags at
  -- all: the calls are the same under any other flags.
  pub on_track_message_ignores_talking :
      (kind stream_id : String) (bytes : List ℕ) (flags : Dict Bool) (m : Manager) (cs : List Call)
      → calls (on_track_message R kind stream_id bytes (record m { is_stream_talking = flags }) cs)
        ≡ calls (on_track_message R kind stream_id bytes m cs)
  unfolding on_track_message ◌>>=◌ gets
  on_track_message_ignores_talking kind stream_id bytes flags m cs =
      elim (Bool-cases (kind == "audio")) [
        | inl e ↦ simp e (calls-on_part m.gst _ _ _ _ cs (push_audio_frame R bytes))
        | inr e ↦ simp e
      ]
