-- ===== src/Manager/Steps.antt =====
-- One run of the program as a sequence of steps: requests of the application, which may come at any
-- time, and callbacks of the libraries, which come while the manager is communicating (cleanup
-- closes every object that has a callback).
use ant_media_server_confere.Base.{ℕ, String, ◌≡◌, Bool, true, List, []}
use ant_media_server_confere.Base.Exec.{state, calls, pure, ◌>>=◌}
use ant_media_server_confere.Platform.{JsonLib, Rtc, Call, Candidate, SdpType, Media}
use ant_media_server_confere.Gst.State.{Target}
use ant_media_server_confere.Manager.State.{
  Manager, Method, create, set_room_id, set_stream_id, set_signaling_server_url,
}
use ant_media_server_confere.Manager.Peers.{
  add_remote_track, on_data_channel, on_track_message, on_local_track_open,
}
use ant_media_server_confere.Manager.Chat.{
  handle_data_channel_text, send_binary_message, send_chat_message,
}
use ant_media_server_confere.Manager.Events.{
  on_ws_message, on_ws_open, on_ws_closed, on_local_candidate, on_local_description,
}
use ant_media_server_confere.Manager.Lifecycle.{start_2way_communication, stop_2way_communication}

-- The public methods.
pub data Request : Type 0 where
  set_room set_stream set_url send_chat : String → Request
  send_binary : List ℕ → String → Request
  start : Bool → Request
  stop : Request

-- The functions that the program hands to the libraries.
pub data Callback : Type 0 where
  ws_opened ws_closed : Callback
  ws_message : String → Callback
  data_channel : ℕ → Callback
  channel_text : String → String → Callback
  remote_track : ℕ → String → Callback
  track_bytes : String → String → List ℕ → Callback
  local_track_open : Media → ℕ → Callback
  local_candidate : String → Candidate → Callback
  local_description : String → SdpType → String → Callback

module _ (J : JsonLib) (target : Target) (R : Rtc) where
  unfoldable pub serve : Request → Method
  serve (set_room room_id) = set_room_id room_id
  serve (set_stream stream_id) = set_stream_id stream_id
  serve (set_url url) = set_signaling_server_url url
  serve (send_chat text) = send_chat_message J R text
  serve (send_binary bytes label) = send_binary_message R bytes label
  serve (start is_player) = do result ← start_2way_communication J R target is_player; pure tt
  serve stop = stop_2way_communication J R

  unfoldable pub react : Callback → Method
  react ws_opened = on_ws_open J R
  react ws_closed = on_ws_closed J R
  react (ws_message text) = on_ws_message J R text
  react (data_channel dc) = on_data_channel R dc
  react (channel_text label text) = handle_data_channel_text J label text
  react (remote_track track stream_id) = add_remote_track R track stream_id
  react (track_bytes kind stream_id bytes) = on_track_message R kind stream_id bytes
  react (local_track_open media track) = on_local_track_open R target media track
  react (local_candidate stream_id c) = on_local_candidate J R stream_id c
  react (local_description stream_id type sdp) = on_local_description J R stream_id type sdp

-- What the libraries answer may be another function at every step.
module _ (J : JsonLib) (target : Target) where
  pub data Step (m : Manager) (cs : List Call) (n : Manager) (ds : List Call) : Type 0 where
    request :
        (R : Rtc) (r : Request)
        → n ≡ state (serve J target R r m cs)
        → ds ≡ calls (serve J target R r m cs)
        → Step m cs n ds
    callback :
        (R : Rtc) (c : Callback)
        → m.is_communicating ≡ true
        → n ≡ state (react J target R c m cs)
        → ds ≡ calls (react J target R c m cs)
        → Step m cs n ds

  pub data Reach : Manager → List Call → Type 0 where
    here : Reach create []
    next : {m n : Manager} {cs ds : List Call} → Reach m cs → Step m cs n ds → Reach n ds
