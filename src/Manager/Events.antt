-- ===== src/Manager/Events.antt =====
-- The lambdas of initWebRTCStateMachine, and the callbacks of the socket and of the peer
-- connections that end in them.
use ant_media_server_confere.Base.{
  ℕ, String, true, false, not, Option, none, some, ◌==◌, ◌&&◌, is_empty,
}
use ant_media_server_confere.Base.Dict.{lookup, insert, erase, contains, get_or}
use ant_media_server_confere.Base.Exec.{
  pure, gets, try_pure, modify, observe, when, swallow, ◌>>=◌, ◌>>◌,
}
use ant_media_server_confere.Platform.{JsonLib, Rtc, Candidate, SdpType, offer, answer}
use ant_media_server_confere.Signaling.State.{
  Signaling, Event, connected, disconnected, publish_started, start_offerer, play_started,
  play_finished, subtrack_added, subtrack_removed, remote_sdp, remote_candidate, joined_room,
}
use ant_media_server_confere.Signaling.Dispatch.{read_message}
use ant_media_server_confere.Signaling.Link.{opened, closed}
use ant_media_server_confere.Signaling.Link
use ant_media_server_confere.Manager.State.{Method, with_signaling}
use ant_media_server_confere.Manager.Peers.{setup_publish_peer, remove_peer_if_not_exist}
use ant_media_server_confere.Manager.Sdp.{handle_remote_sdp, add_remote_candidate, start_offer}

module _ (J : JsonLib) (R : Rtc) where
  unfoldable pub on_connected : Method
  unfolding with_signaling
  on_connected = do
    stream_id ← gets (λ m. m.publish_stream_id)
    setup_publish_peer R stream_id
    with_signaling (Link.send_join_room J R)

  unfoldable pub on_joined_room : Method
  unfolding with_signaling
  on_joined_room = do
    player ← gets (λ m. m.is_only_player)
    with_signaling (Link.send_publish J R (not player) (not player))

  unfoldable pub play_room : Method
  unfolding with_signaling
  play_room = do
    modify (λ m. record m { send_play = insert m.room_id true m.send_play })
    with_signaling (Link.send_play_room J R)

  unfoldable pub on_publish_started : Method
  unfolding play_room when
  on_publish_started = do
    asked ← gets (λ m. contains m.room_id m.send_play)
    when (not asked) play_room

  unfoldable pub on_play_started : String → Method
  unfolding when
  on_play_started stream_id =
      when (not (is_empty stream_id))
        (modify (λ m. record m { played = insert stream_id true m.played }))

  unfoldable pub on_play_finished : String → Method
  unfolding remove_peer_if_not_exist play_room when
  on_play_finished stream_id = when (not (is_empty stream_id)) (do
    remove_peer_if_not_exist R stream_id
    is_room ← gets (λ m. stream_id == m.room_id)
    when is_room play_room)

  unfoldable pub play_track : String → Method
  unfolding with_signaling when
  play_track track_id = do
    asked ← gets (λ m. get_or false track_id m.send_play)
    when (not asked) (do
      modify (λ m. record m { send_play = insert track_id true m.send_play })
      with_signaling (Link.send_play_stream J R track_id))

  -- A peer that is not closed ends the method.
  unfoldable pub unless_alive : String → Option ℕ → Method
  unfolding play_track when
  unless_alive track_id none = play_track track_id
  unless_alive track_id (some pc) = do
    is_closed ← observe (λ cs. R.pc_closed cs pc)
    when is_closed (play_track track_id)

  unfoldable pub on_subtrack_added : String → Method
  unfolding unless_alive when
  on_subtrack_added track_id = do
    own ← gets (λ m. track_id == m.publish_stream_id)
    when (not (is_empty track_id) && not own)
        (do peer ← gets (λ m. lookup track_id m.pcs); unless_alive track_id peer)

  unfoldable pub on_subtrack_removed : String → Method
  unfolding when
  on_subtrack_removed track_id =
      when (not (is_empty track_id))
        (modify (λ m. record m { send_play = erase track_id m.send_play }))

  unfoldable pub on_event : Event → Method
  unfolding on_connected on_joined_room on_publish_started on_play_started on_play_finished
      on_subtrack_added on_subtrack_removed pure
  on_event connected = on_connected
  on_event disconnected = pure tt
  on_event (start_offerer stream_id) = start_offer J R stream_id
  on_event (remote_sdp stream_id type sdp) = handle_remote_sdp J R stream_id type sdp
  on_event (remote_candidate stream_id cand mid) = add_remote_candidate J R stream_id cand mid
  on_event (joined_room triggered) = on_joined_room
  on_event publish_started = on_publish_started
  on_event (play_started stream_id) = on_play_started stream_id
  on_event (play_finished stream_id) = on_play_finished stream_id
  on_event (subtrack_added track_id) = on_subtrack_added track_id
  on_event (subtrack_removed track_id) = on_subtrack_removed track_id

  unfoldable pub on_some_event : Option Event → Method
  unfolding on_event pure
  on_some_event none = pure tt
  on_some_event (some e) = on_event e

  unfoldable pub read_from : Option Signaling → String → Method
  unfolding on_some_event read_message
  read_from none text = pure tt
  read_from (some s) text = do event ← try_pure (read_message J s text); on_some_event event

  -- m_ws.onMessage at a text: whatever is thrown ends here.
  unfoldable pub on_ws_message : String → Method
  unfolding read_from swallow
  on_ws_message text = swallow (do s ← gets (λ m. m.signaling); read_from s text)

  unfoldable pub open_link : Option Signaling → Method
  unfolding on_event opened pure when
  open_link none = pure tt
  open_link (some s) = when s.ws_callbacks (do
    modify (λ m. record m { signaling = some (opened s) })
    when s.handlers.on_connected on_connected)

  -- m_ws.onOpen.
  unfoldable pub on_ws_open : Method
  unfolding open_link
  on_ws_open = do s ← gets (λ m. m.signaling); open_link s

  unfoldable pub close_link : Option Signaling → Method
  unfolding closed pure when
  close_link none = pure tt
  close_link (some s) = when s.ws_callbacks (modify (λ m. record m { signaling = some (closed s) }))

  -- m_ws.onClosed; onDisconnected only logs.
  unfoldable pub on_ws_closed : Method
  unfolding close_link
  on_ws_closed = do s ← gets (λ m. m.signaling); close_link s

  -- pc->onLocalCandidate and pc->onLocalDescription.
  unfoldable pub on_local_candidate : String → Candidate → Method
  unfolding with_signaling
  on_local_candidate stream_id c = with_signaling (Link.send_take_candidate J R stream_id c)

  abbrev type_text : SdpType → String
  type_text offer = "offer"
  type_text answer = "answer"

  unfoldable pub on_local_description : String → SdpType → String → Method
  unfolding with_signaling
  on_local_description stream_id type sdp =
      with_signaling (Link.send_take_configuration J R stream_id (type_text type) sdp)
