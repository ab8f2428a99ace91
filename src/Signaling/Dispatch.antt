-- ===== src/Signaling/Dispatch.antt =====
-- From the text of a message to the event for WebRTCManager: stringToEvent, dispatchNotification
-- and the callbacks that `Connect` installs on the client. `none` outside is an exception.
use ant_media_server_confere.Base.{String, false, Option, none, some, ◌==◌, if◌then◌else◌}
use ant_media_server_confere.Platform.{JsonLib}
use ant_media_server_confere.Command.State.{Command}
use ant_media_server_confere.Command.Incoming.{Upcall, handle_message, if_set, text_of, ◌>>=◌}
use ant_media_server_confere.Signaling.State.{
  AmsEvent, Handlers, Signaling, Event, start_offerer, remote_sdp, remote_candidate, joined_room,
}

unfoldable pub string_to_event : String → AmsEvent
string_to_event def =
    if def == "joinedTheRoom"
    then AmsEvent.joined_the_room
    else if def == "publish_started"
    then AmsEvent.publish_started
    else if def == "play_started"
    then AmsEvent.play_started
    else if def == "play_finished"
    then AmsEvent.play_finished
    else if def == "subtrackAdded"
    then AmsEvent.subtrack_added
    else if def == "subtrackRemoved"
    then AmsEvent.subtrack_removed
    else AmsEvent.unknown

-- The switch of dispatchNotification.
unfoldable pub notify : Handlers → AmsEvent → String → String → Option Event
unfolding if_set
notify h AmsEvent.joined_the_room stream_id track_id =
    if_set h.on_joined_room_notification (joined_room false)
notify h AmsEvent.publish_started stream_id track_id =
    if_set h.on_publish_started_notification Event.publish_started
notify h AmsEvent.play_started stream_id track_id =
    if_set h.on_play_started_notification (Event.play_started stream_id)
notify h AmsEvent.play_finished stream_id track_id =
    if_set h.on_play_finished_notification (Event.play_finished stream_id)
notify h AmsEvent.subtrack_added stream_id track_id =
    if_set h.on_subtrack_added_notification (Event.subtrack_added track_id)
notify h AmsEvent.subtrack_removed stream_id track_id =
    if_set h.on_subtrack_removed_notification (Event.subtrack_removed track_id)
notify h AmsEvent.unknown stream_id track_id = none

module _ (J : JsonLib) where
  unfoldable pub dispatch_notification : Handlers → J.Json → Option (Option Event)
  unfolding notify string_to_event text_of
  dispatch_notification h msg = do
    def ← J.value msg "definition" ""
    stream_id ← text_of J msg "streamId"
    track_id ← text_of J msg "trackId"
    some (notify h (string_to_event def) stream_id track_id)

  -- The lambdas that forward the client's callbacks.
  unfoldable pub forward : Handlers → Upcall J.Json → Option (Option Event)
  unfolding if_set dispatch_notification
  forward h (Upcall.start_offerer stream_id) =
      some (if_set h.on_start_offerer (start_offerer stream_id))
  forward h (Upcall.remote_sdp stream_id type sdp) =
      some (if_set h.on_remote_sdp (remote_sdp stream_id type sdp))
  forward h (Upcall.remote_candidate stream_id cand mid label) =
      some (if_set h.on_remote_candidate (remote_candidate stream_id cand mid))
  forward h (Upcall.notification msg) = dispatch_notification h msg

  unfoldable pub forward_some : Handlers → Option (Upcall J.Json) → Option (Option Event)
  unfolding forward
  forward_some h none = some none
  forward_some h (some u) = forward h u

  unfoldable pub to_client : Handlers → Option Command → String → Option (Option Event)
  unfolding forward_some handle_message
  to_client h none text = some none
  to_client h (some c) text = do msg ← J.parse text; up ← handle_message J c msg; forward_some h up

  -- m_ws.onMessage at a text, up to the event that it ends in.
  unfoldable pub read_message : Signaling → String → Option (Option Event)
  unfolding to_client
  read_message s text = if s.ws_callbacks then to_client s.handlers s.client text else some none
