-- ===== src/Manager/Running/Callbacks.antt =====
-- The other methods and callbacks keep the invariant.
use mathlib.Core.Path.{refl}
use ant_media_server_confere.Base.{ℕ, String, Option, none, some, List}
use ant_media_server_confere.Base.Exec.Keeps.{Keeps}
use ant_media_server_confere.Platform.{JsonLib, Rtc, Candidate, SdpType, Media, video, audio}
use ant_media_server_confere.Signaling.State.{
  Signaling, Event, connected, disconnected, publish_started, start_offerer, play_started,
  play_finished, subtrack_added, subtrack_removed, remote_sdp, remote_candidate, joined_room,
}
use ant_media_server_confere.Gst.State.{Target}
use ant_media_server_confere.Manager.State.{set_room_id, set_stream_id, set_signaling_server_url}
use ant_media_server_confere.Manager.Peers.{
  add_remote_track, on_data_channel, on_track_message, on_local_track_open,
}
use ant_media_server_confere.Manager.Chat.{
  set_talking, handle_event, handle_parsed, handle_data_channel_text, send_text, send_bytes,
  send_binary_message, send_chat_message,
}
use ant_media_server_confere.Manager.Events.{
  on_connected, play_room, on_play_finished, play_track, unless_alive, on_event, on_some_event,
  read_from, on_ws_message, open_link, on_ws_open, close_link, on_ws_closed, on_local_candidate,
  on_local_description,
}
use ant_media_server_confere.Manager.Running.Facts.{IsRunning, running_rules, frame-IsRunning}
use ant_media_server_confere.Manager.Running.Adding.{
  create_peer_if_not_exist-IsRunning, setup_publish_peer-IsRunning,
}
use ant_media_server_confere.Manager.Running.Descriptions.{
  handle_remote_sdp-IsRunning, add_remote_candidate-IsRunning, start_offer-IsRunning,
}
use ant_media_server_confere.Manager.Running.Removing.{remove_peer_if_not_exist-IsRunning}

ruleset callback_rules = (
  running_rules, frame-IsRunning, refl, create_peer_if_not_exist-IsRunning,
  setup_publish_peer-IsRunning, remove_peer_if_not_exist-IsRunning,
)

module _ (R : Rtc) where
  pub add_remote_track-IsRunning :
      (track : ℕ) (stream_id : String) → Keeps IsRunning (add_remote_track R track stream_id)
  unfolding add_remote_track
  add_remote_track-IsRunning track stream_id = search callback_rules depth 20

  pub on_data_channel-IsRunning : (dc : ℕ) → Keeps IsRunning (on_data_channel R dc)
  unfolding on_data_channel
  on_data_channel-IsRunning dc = search callback_rules depth 20

  pub on_track_message-IsRunning :
      (kind stream_id : String) (bytes : List ℕ)
      → Keeps IsRunning (on_track_message R kind stream_id bytes)
  unfolding on_track_message
  on_track_message-IsRunning kind stream_id bytes = search callback_rules depth 20

  pub on_local_track_open-IsRunning :
      (target : Target) (media : Media) (track : ℕ)
      → Keeps IsRunning (on_local_track_open R target media track)
  unfolding on_local_track_open
  on_local_track_open-IsRunning target video track = search callback_rules
  on_local_track_open-IsRunning target audio track = search callback_rules

  send_text-IsRunning : (dc : Option ℕ) (text : String) → Keeps IsRunning (send_text R dc text)
  unfolding send_text
  send_text-IsRunning none text = search callback_rules
  send_text-IsRunning (some dc) text = search callback_rules

  send_bytes-IsRunning : (dc : Option ℕ) (bytes : List ℕ) → Keeps IsRunning (send_bytes R dc bytes)
  unfolding send_bytes
  send_bytes-IsRunning none bytes = search callback_rules
  send_bytes-IsRunning (some dc) bytes = search callback_rules

  pub send_binary_message-IsRunning :
      (bytes : List ℕ) (label : String) → Keeps IsRunning (send_binary_message R bytes label)
  unfolding send_binary_message
  send_binary_message-IsRunning bytes label = search (callback_rules, send_bytes-IsRunning)

module _ (J : JsonLib) where
  set_talking-IsRunning : (sender text : String) → Keeps IsRunning (set_talking J sender text)
  unfolding set_talking
  set_talking-IsRunning sender text = search callback_rules depth 20

  handle_event-IsRunning : (j : J.Json) → Keeps IsRunning (handle_event J j)
  unfolding handle_event
  handle_event-IsRunning j = search (callback_rules, set_talking-IsRunning) depth 20

  handle_parsed-IsRunning : (j : Option J.Json) → Keeps IsRunning (handle_parsed J j)
  unfolding handle_parsed
  handle_parsed-IsRunning none = search callback_rules
  handle_parsed-IsRunning (some j) = search (callback_rules, handle_event-IsRunning)

  pub handle_data_channel_text-IsRunning :
      (label text : String) → Keeps IsRunning (handle_data_channel_text J label text)
  unfolding handle_data_channel_text
  handle_data_channel_text-IsRunning label text = handle_parsed-IsRunning (J.parse text)

module _ (J : JsonLib) (R : Rtc) where
  pub send_chat_message-IsRunning : (text : String) → Keeps IsRunning (send_chat_message J R text)
  unfolding send_chat_message
  send_chat_message-IsRunning text = search (callback_rules, send_text-IsRunning) depth 20

  on_connected-IsRunning : Keeps IsRunning (on_connected J R)
  unfolding on_connected
  on_connected-IsRunning = search callback_rules

  play_room-IsRunning : Keeps IsRunning (play_room J R)
  unfolding play_room
  play_room-IsRunning = search callback_rules depth 20

  on_play_finished-IsRunning :
      (stream_id : String) → Keeps IsRunning (on_play_finished J R stream_id)
  unfolding on_play_finished
  on_play_finished-IsRunning stream_id = search (callback_rules, play_room-IsRunning) depth 20

  play_track-IsRunning : (track_id : String) → Keeps IsRunning (play_track J R track_id)
  unfolding play_track
  play_track-IsRunning track_id = search callback_rules depth 20

  unless_alive-IsRunning :
      (track_id : String) (peer : Option ℕ) → Keeps IsRunning (unless_alive J R track_id peer)
  unfolding unless_alive
  unless_alive-IsRunning track_id none = play_track-IsRunning track_id
  unless_alive-IsRunning track_id (some pc) = search (callback_rules, play_track-IsRunning)

  on_event-IsRunning : (e : Event) → Keeps IsRunning (on_event J R e)
  unfolding on_event
  on_event-IsRunning connected = on_connected-IsRunning
  on_event-IsRunning disconnected = search callback_rules
  on_event-IsRunning (start_offerer stream_id) = start_offer-IsRunning J R stream_id
  on_event-IsRunning (remote_sdp stream_id type sdp) =
      handle_remote_sdp-IsRunning J R stream_id type sdp
  on_event-IsRunning (remote_candidate stream_id cand mid) =
      add_remote_candidate-IsRunning J R stream_id cand mid
  on_event-IsRunning (joined_room triggered) = search callback_rules
  on_event-IsRunning publish_started = search (callback_rules, play_room-IsRunning)
  on_event-IsRunning (play_started stream_id) = search callback_rules depth 20
  on_event-IsRunning (play_finished stream_id) = on_play_finished-IsRunning stream_id
  on_event-IsRunning (subtrack_added track_id) =
      search (callback_rules, unless_alive-IsRunning) depth 20
  on_event-IsRunning (subtrack_removed track_id) = search callback_rules depth 20

  on_some_event-IsRunning : (e : Option Event) → Keeps IsRunning (on_some_event J R e)
  unfolding on_some_event
  on_some_event-IsRunning none = search callback_rules
  on_some_event-IsRunning (some e) = on_event-IsRunning e

  read_from-IsRunning :
      (s : Option Signaling) (text : String) → Keeps IsRunning (read_from J R s text)
  unfolding read_from
  read_from-IsRunning none text = search callback_rules
  read_from-IsRunning (some s) text = search (callback_rules, on_some_event-IsRunning)

  pub on_ws_message-IsRunning : (text : String) → Keeps IsRunning (on_ws_message J R text)
  unfolding on_ws_message
  on_ws_message-IsRunning text = search (callback_rules, read_from-IsRunning)

  open_link-IsRunning : (s : Option Signaling) → Keeps IsRunning (open_link J R s)
  unfolding open_link
  open_link-IsRunning none = search callback_rules
  open_link-IsRunning (some s) = search (callback_rules, on_connected-IsRunning) depth 20

  close_link-IsRunning : (s : Option Signaling) → Keeps IsRunning (close_link J R s)
  unfolding close_link
  close_link-IsRunning none = search callback_rules
  close_link-IsRunning (some s) = search callback_rules depth 20

  pub on_ws_open-IsRunning : Keeps IsRunning (on_ws_open J R)
  unfolding on_ws_open
  on_ws_open-IsRunning = search (callback_rules, open_link-IsRunning)

  pub on_ws_closed-IsRunning : Keeps IsRunning (on_ws_closed J R)
  unfolding on_ws_closed
  on_ws_closed-IsRunning = search (callback_rules, close_link-IsRunning)

  pub on_local_candidate-IsRunning :
      (stream_id : String) (c : Candidate) → Keeps IsRunning (on_local_candidate J R stream_id c)
  unfolding on_local_candidate
  on_local_candidate-IsRunning stream_id c = search callback_rules

  pub on_local_description-IsRunning :
      (stream_id : String) (type : SdpType) (sdp : String)
      → Keeps IsRunning (on_local_description J R stream_id type sdp)
  unfolding on_local_description
  on_local_description-IsRunning stream_id type sdp = search callback_rules

pub set_room_id-IsRunning : (s : String) → Keeps IsRunning (set_room_id s)
unfolding set_room_id
set_room_id-IsRunning s = frame-IsRunning _ (λ _. refl) (λ _. refl) (λ _. refl) (λ _. refl)

pub set_stream_id-IsRunning : (s : String) → Keeps IsRunning (set_stream_id s)
unfolding set_stream_id
set_stream_id-IsRunning s = frame-IsRunning _ (λ _. refl) (λ _. refl) (λ _. refl) (λ _. refl)

pub set_signaling_server_url-IsRunning : (s : String) → Keeps IsRunning (set_signaling_server_url s)
unfolding set_signaling_server_url
set_signaling_server_url-IsRunning s =
    frame-IsRunning _ (λ _. refl) (λ _. refl) (λ _. refl) (λ _. refl)
