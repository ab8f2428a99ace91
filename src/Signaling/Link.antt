-- ===== src/Signaling/Link.antt =====
-- Opening and closing the link to the server, and the proxies for the client's commands.
use ant_media_server_confere.Base.{String, Bool, true, false, none, some}
use ant_media_server_confere.Base.Exec.{
  Exec, Outcome, done, thrown, gets, modify, call, emit, when, with_part, swallow, ◌>>=◌, ◌>>◌,
}
use ant_media_server_confere.Platform.{
  JsonLib, Rtc, Call, ws_open, ws_close, ws_set_callbacks, ws_clear_callbacks, Candidate,
}
use ant_media_server_confere.Command.State.{Command, shutdown}
use ant_media_server_confere.Command.State
use ant_media_server_confere.Command.Outgoing
use ant_media_server_confere.Signaling.State.{Signaling}

-- The client as `Connect` leaves it: on the socket, with its four callbacks.
unfoldable pub bound_client : String → String → Command
unfolding State.create
bound_client publish_stream_id room_id = record (State.create true publish_stream_id room_id) {
  on_start_offerer = true;
  on_remote_sdp = true;
  on_remote_candidate = true;
  on_notification = true;
}

-- `try { ... } catch (const std::exception&) { return false; } return true;`
abbrev succeeded : Outcome Signaling Call (Unit {0}) → Outcome Signaling Call Bool
succeeded (done a s cs) = done true s cs
succeeded (thrown s cs) = done false s cs

unfoldable pub returns_true : Exec Signaling Call (Unit {0}) → Exec Signaling Call Bool
returns_true m s cs = succeeded (m s cs)

module _ (R : Rtc) where
  unfoldable pub connect : String → String → Exec Signaling Call Bool
  unfolding bound_client returns_true
  connect url publish_stream_id = do
    modify (λ s. record s {
      ws_open = false;
      client = some (bound_client publish_stream_id s.room_id);
    })
    emit ws_set_callbacks
    modify (λ s. record s { ws_callbacks = true })
    returns_true (call R.throws (ws_open url))

  unfoldable pub disconnect : Exec Signaling Call (Unit {0})
  unfolding when
  disconnect = do
    emit ws_clear_callbacks
    modify (λ s. record s { ws_callbacks = false })
    is_open ← gets (λ s. s.ws_open)
    when is_open (swallow (call R.throws ws_close))
    modify (λ s. record s { ws_open = false })

-- The lambdas that `Connect` gives to m_ws.onOpen and m_ws.onClosed, up to the event.
unfoldable pub opened : Signaling → Signaling
opened s = record s { ws_open = true }

unfoldable pub closed : Signaling → Signaling
closed s = record s { ws_open = false }

unfoldable pub shutdown_client : Signaling → Signaling
shutdown_client s = record s { client = none }

-- `if (m_signaling) m_signaling->...`.
unfoldable pub with_client : Exec Command Call (Unit {0}) → Exec Signaling Call (Unit {0})
unfolding with_part
with_client = with_part tt (λ s. s.client) (λ s c. record s { client = some c })

module _ (J : JsonLib) (R : Rtc) where
  unfoldable pub send_join_room : Exec Signaling Call (Unit {0})
  unfolding with_client
  send_join_room = with_client (Outgoing.send_join_room J R)

  unfoldable pub send_publish : Bool → Bool → Exec Signaling Call (Unit {0})
  unfolding with_client
  send_publish video audio = with_client (Outgoing.send_publish J R video audio)

  unfoldable pub send_play_room : Exec Signaling Call (Unit {0})
  unfolding with_client
  send_play_room = with_client (Outgoing.send_play_room J R)

  unfoldable pub send_play_stream : String → Exec Signaling Call (Unit {0})
  unfolding with_client
  send_play_stream track_id = with_client (Outgoing.send_play_stream J R track_id)

  unfoldable pub send_take_candidate : String → Candidate → Exec Signaling Call (Unit {0})
  unfolding with_client
  send_take_candidate stream_id c = with_client (Outgoing.send_take_candidate J R stream_id c)

  unfoldable pub send_take_configuration : String → String → String → Exec Signaling Call (Unit {0})
  unfolding with_client
  send_take_configuration stream_id type sdp =
      with_client (Outgoing.send_take_configuration J R stream_id type sdp)

  unfoldable pub send_stop_publish : Exec Signaling Call (Unit {0})
  unfolding with_client
  send_stop_publish = with_client (Outgoing.send_stop_publish J R)

  unfoldable pub send_stop_play_room : Exec Signaling Call (Unit {0})
  unfolding with_client
  send_stop_play_room = with_client (Outgoing.send_stop_play_room J R)

  unfoldable pub send_leave_room : Exec Signaling Call (Unit {0})
  unfolding with_client
  send_leave_room = with_client (Outgoing.send_leave_room J R)
