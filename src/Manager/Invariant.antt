-- ===== src/Manager/Invariant.antt =====
-- The invariant of the manager over every run of the program.
use mathlib.Core.Path.{refl}
use ant_media_server_confere.Base.{ℕ, String, ◌≡◌, inl, inr, Bool, true, false, List, [], arith}
use ant_media_server_confere.Base.Dict.{lookup-nil}
use ant_media_server_confere.Base.Exec.{Outcome, done, thrown, state, calls, pure, gets, ◌>>=◌}
use ant_media_server_confere.Base.Exec.Keeps.{Keeps, Keeps-bind, Keeps-pure}
use ant_media_server_confere.Base.Exec.Ensures.{Post}
use ant_media_server_confere.Platform.{JsonLib, Rtc, Call}
use ant_media_server_confere.Gst.State.{Target}
use ant_media_server_confere.Manager.State.{
  Manager, create, set_room_id, set_stream_id, set_signaling_server_url,
}
use ant_media_server_confere.Manager.Chat.{send_binary_message, send_chat_message}
use ant_media_server_confere.Manager.Lifecycle.{start_2way_communication, stop_2way_communication}
use ant_media_server_confere.Manager.Steps.{
  Request, set_room, set_stream, set_url, send_chat, send_binary, start, stop, Callback, ws_opened,
  ws_closed, ws_message, data_channel, channel_text, remote_track, track_bytes, local_track_open,
  local_candidate, local_description, serve, react, request, callback, Reach, here, next,
}
use ant_media_server_confere.Manager.Running.Facts.{IsRunning}
use ant_media_server_confere.Manager.Running.Callbacks
use ant_media_server_confere.Manager.Idle.Facts.{IsIdle, IsConsistent}
use ant_media_server_confere.Manager.Idle.Start.{
  Started, start_2way_communication-Started, start_2way_communication-IsRunning,
  stop_2way_communication-IsIdle,
}

pub create-IsIdle : IsIdle create []
unfolding create
create-IsIdle = record {
  not_communicating = refl;
  signaling_gone = refl;
  nothing = record {
    gst_gone = refl;
    pcs_gone = refl;
    is_publisher_gone = refl;
    send_play_gone = refl;
    played_gone = refl;
    remote_tracks_gone = refl;
    pending_candidates_gone = refl;
    mid_type_map_gone = refl;
    local_data_channels_gone = refl;
    remote_data_channels_gone = refl;
    is_stream_talking_gone = refl;
  };
}

module _ (J : JsonLib) (target : Target) (R : Rtc) where
  pub react-IsRunning : (c : Callback) → Keeps IsRunning (react J target R c)
  unfolding react
  react-IsRunning ws_opened = Callbacks.on_ws_open-IsRunning J R
  react-IsRunning ws_closed = Callbacks.on_ws_closed-IsRunning J R
  react-IsRunning (ws_message text) = Callbacks.on_ws_message-IsRunning J R text
  react-IsRunning (data_channel dc) = Callbacks.on_data_channel-IsRunning R dc
  react-IsRunning (channel_text label text) =
      Callbacks.handle_data_channel_text-IsRunning J label text
  react-IsRunning (remote_track track stream_id) =
      Callbacks.add_remote_track-IsRunning R track stream_id
  react-IsRunning (track_bytes kind stream_id bytes) =
      Callbacks.on_track_message-IsRunning R kind stream_id bytes
  react-IsRunning (local_track_open media track) =
      Callbacks.on_local_track_open-IsRunning R target media track
  react-IsRunning (local_candidate stream_id c) =
      Callbacks.on_local_candidate-IsRunning J R stream_id c
  react-IsRunning (local_description stream_id type sdp) =
      Callbacks.on_local_description-IsRunning J R stream_id type sdp

  Post-IsConsistent :
      (o : Outcome Manager Call (Unit {0}))
      → Post (λ _. IsIdle) IsRunning o
      → IsConsistent (state o) (calls o)
  Post-IsConsistent (done a m cs) h = inl h
  Post-IsConsistent (thrown m cs) h = inr h

  serve-running :
      (r : Request) (m : Manager) (cs : List Call)
      → IsRunning m cs
      → IsConsistent (state (serve J target R r m cs)) (calls (serve J target R r m cs))
  unfolding serve
  serve-running (set_room s) m cs h = inr ((Callbacks.set_room_id-IsRunning s).at m cs h)
  serve-running (set_stream s) m cs h = inr ((Callbacks.set_stream_id-IsRunning s).at m cs h)
  serve-running (set_url s) m cs h =
      inr ((Callbacks.set_signaling_server_url-IsRunning s).at m cs h)
  serve-running (send_chat text) m cs h =
      inr ((Callbacks.send_chat_message-IsRunning J R text).at m cs h)
  serve-running (send_binary bytes label) m cs h =
      inr ((Callbacks.send_binary_message-IsRunning R bytes label).at m cs h)
  serve-running (start is_player) m cs h = inr (
      (Keeps-bind _ _ (start_2way_communication-IsRunning J R target is_player)
          (λ _. Keeps-pure tt)).at
        m cs h)
  serve-running stop m cs h = Post-IsConsistent _ (stop_2way_communication-IsIdle J R m cs h)

  Post-Started :
      (o : Outcome Manager Call Bool)
      → Post (Started J R) IsRunning o
      → IsConsistent (state o) (calls o)
  Post-Started (done true m cs) h = inr h
  Post-Started (done false m cs) h = inl h
  Post-Started (thrown m cs) h = inr h

  -- `start` drops its result.
  drop_result :
      (o : Outcome Manager Call Bool)
      → IsConsistent (state o) (calls o)
      → let p : Outcome Manager Call (Unit {0}) = elim o [
        | done a m cs ↦ pure tt m cs
        | thrown m cs ↦ thrown m cs
      ] in
        IsConsistent (state p) (calls p)
  unfolding pure
  drop_result (done a m cs) h = h
  drop_result (thrown m cs) h = h

  -- With no connection and no channel a chat message goes nowhere.
  send_chat-idle :
      (text : String) (m : Manager) (cs : List Call)
      → IsIdle m cs
      → send_chat_message J R text m cs ≡ done tt m cs
  unfolding send_chat_message ◌>>=◌ gets
  send_chat-idle text m cs h = simp (h.not_communicating)

  send_binary-idle :
      (bytes : List ℕ) (label : String) (m : Manager) (cs : List Call)
      → IsIdle m cs
      → send_binary_message R bytes label m cs ≡ done tt m cs
  unfolding send_binary_message ◌>>=◌ gets
  send_binary-idle bytes label m cs h =
      simp (h.nothing.local_data_channels_gone, lookup-nil {V = ℕ})

  pub stop-idle :
      (m : Manager) (cs : List Call) → IsIdle m cs → stop_2way_communication J R m cs ≡ done tt m cs
  unfolding stop_2way_communication ◌>>=◌ gets
  stop-idle m cs h = simp (h.not_communicating)

  serve-idle :
      (r : Request) (m : Manager) (cs : List Call)
      → IsIdle m cs
      → IsConsistent (state (serve J target R r m cs)) (calls (serve J target R r m cs))
  unfolding serve set_room_id set_stream_id set_signaling_server_url ◌>>=◌
  serve-idle (set_room s) m cs h = inl (ground arith)
  serve-idle (set_stream s) m cs h = inl (ground arith)
  serve-idle (set_url s) m cs h = inl (ground arith)
  serve-idle (send_chat text) m cs h = rw (send_chat-idle text m cs h) (inl h)
  serve-idle (send_binary bytes label) m cs h = rw (send_binary-idle bytes label m cs h) (inl h)
  serve-idle (start is_player) m cs h =
      drop_result (start_2way_communication J R target is_player m cs)
        (Post-Started _ (start_2way_communication-Started J R target is_player m cs h))
  serve-idle stop m cs h = rw (stop-idle m cs h) (inl h)

module _ (J : JsonLib) (target : Target) where
  -- In every run, whatever the libraries answer and whatever they throw, the manager either is
  -- stopped and holds nothing, or is running with its maps in order.
  pub Reach-IsConsistent : {m : Manager} {cs : List Call} → Reach J target m cs → IsConsistent m cs
  Reach-IsConsistent here = inl create-IsIdle
  Reach-IsConsistent (next {m} {cs = cs} r (request R q e f)) =
      rw (e, f)
        (elim (Reach-IsConsistent r) [
          | inl idle ↦ serve-idle J target R q m cs idle
          | inr running ↦ serve-running J target R q m cs running
        ])
  Reach-IsConsistent (next {m} {cs = cs} r (callback R c on e f)) =
      rw (e, f)
        (elim (Reach-IsConsistent r) [
          | inl idle ↦ cc (idle.not_communicating, on)
          | inr running ↦ inr ((react-IsRunning J target R c).at m cs running)
        ])
