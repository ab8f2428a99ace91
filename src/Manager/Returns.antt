-- ===== src/Manager/Returns.antt =====
-- Methods of the manager that return where the libraries do not throw.
use ant_media_server_confere.Base.{
  ℕ, String, ◌≡◌, Bool, true, false, Option, none, some, List, [], ◌∷◌,
}
use ant_media_server_confere.Base.Dict.{Dict, is_some}
use ant_media_server_confere.Base.Exec.Returns.{
  Returns, Returns-call, Returns-bind, Returns-pure, Returns-emit, Returns-observe, Returns-gets,
  Returns-when, Returns-try_pure, returns_rules,
}
use ant_media_server_confere.Platform.{JsonLib, Rtc, Call}
use ant_media_server_confere.Signaling.Link
use ant_media_server_confere.Gst.Player.{close_source, close_player, stop_audio_player, destroy}
use ant_media_server_confere.Gst.Pipelines.{
  release, close_video, stop_video, close_audio, stop_audio,
}
use ant_media_server_confere.Manager.State.{with_signaling, with_gst}
use ant_media_server_confere.Manager.Chat.{chat_message, send_text, send_chat_message}
use ant_media_server_confere.Manager.Lifecycle.{
  close_peers, say_goodbye, leave_if_publisher, drop_gst, drop_signaling, cleanup_resources,
  stop_running, stop_2way_communication,
}

release-Returns : (pipeline : ℕ) → Returns (release pipeline)
unfolding release
release-Returns pipeline = search returns_rules

close_video-Returns : (o : Option ℕ) → Returns (close_video o)
unfolding close_video
close_video-Returns none = search returns_rules
close_video-Returns (some pipeline) = search (returns_rules, release-Returns)

close_audio-Returns : (o : Option ℕ) → Returns (close_audio o)
unfolding close_audio
close_audio-Returns none = search returns_rules
close_audio-Returns (some pipeline) = search (returns_rules, release-Returns)

close_source-Returns : (o : Option ℕ) → Returns (close_source o)
unfolding close_source
close_source-Returns none = search returns_rules
close_source-Returns (some source) = search returns_rules

close_player-Returns : (o : Option ℕ) → Returns (close_player o)
unfolding close_player
close_player-Returns none = search returns_rules
close_player-Returns (some pipeline) =
    search (returns_rules, release-Returns, close_source-Returns) depth 20

stop_audio_player-Returns : Returns stop_audio_player
unfolding stop_audio_player
stop_audio_player-Returns = search (returns_rules, close_player-Returns)

destroy-Returns : Returns destroy
unfolding destroy stop_video stop_audio
destroy-Returns =
    search (returns_rules, close_video-Returns, close_audio-Returns, stop_audio_player-Returns)
      depth 20

-- Every chat message can be written.
abbrev pub Written : JsonLib → Type 0
Written J = (sender text date : String) → is_some (J.dump (chat_message J sender text date)) ≡ true

module _ (J : JsonLib) (R : Rtc) (quiet : (cs : List Call) → R.throws cs ≡ false) where
  leave_if_publisher-Returns : Returns (leave_if_publisher J R)
  unfolding leave_if_publisher say_goodbye
  leave_if_publisher-Returns = search returns_rules depth 20

  close_peers-Returns : (peers : Dict ℕ) → Returns (close_peers J R peers)
  unfolding close_peers
  close_peers-Returns [] = Returns-pure tt
  close_peers-Returns ((id, pc) ∷ rest) =
      Returns-bind _ _ (Returns-emit _)
        (λ _. Returns-bind _ _ (Returns-call R.throws _ quiet) (λ _. close_peers-Returns rest))

  disconnect-Returns : Returns (Link.disconnect R)
  unfolding Link.disconnect
  disconnect-Returns = search returns_rules depth 20

  drop_signaling-Returns : Returns (drop_signaling J R)
  unfolding drop_signaling with_signaling
  drop_signaling-Returns = search (returns_rules, disconnect-Returns) depth 20

  drop_gst-Returns : Returns (drop_gst J R)
  unfolding drop_gst with_gst
  drop_gst-Returns = search (returns_rules, stop_audio_player-Returns, destroy-Returns) depth 20

  cleanup_resources-Returns : Returns (cleanup_resources J R)
  unfolding cleanup_resources
  cleanup_resources-Returns =
      search
        (
          returns_rules, leave_if_publisher-Returns, drop_gst-Returns, close_peers-Returns,
          drop_signaling-Returns,
        )
        depth 20

  stop_running-Returns : (b : Bool) → Returns (stop_running J R b)
  unfolding stop_running
  stop_running-Returns true = search (returns_rules, cleanup_resources-Returns)
  stop_running-Returns false = search returns_rules

  pub stop_2way_communication-Returns : Returns (stop_2way_communication J R)
  unfolding stop_2way_communication
  stop_2way_communication-Returns = search (returns_rules, stop_running-Returns)

  send_text-Returns : (dc : Option ℕ) (payload : String) → Returns (send_text R dc payload)
  unfolding send_text
  send_text-Returns none payload = search returns_rules
  send_text-Returns (some dc) payload =
      Returns-bind _ _ (Returns-observe _)
        (λ is_open. Returns-when is_open _ (Returns-call R.throws _ quiet))

  pub send_chat_message-Returns : Written J → (text : String) → Returns (send_chat_message J R text)
  unfolding send_chat_message
  send_chat_message-Returns written text = Returns-bind _ _ (Returns-gets _) (λ b.
      Returns-when b _ (
        Returns-bind _ _ (Returns-gets _) (λ m.
          Returns-bind _ _ (Returns-try_pure _ (written m.publish_stream_id text R.local_time))
            (λ payload. send_text-Returns _ payload))))
