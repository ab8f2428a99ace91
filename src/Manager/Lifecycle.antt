-- ===== src/Manager/Lifecycle.antt =====
-- Start2WayCommunication, Stop2WayCommunication, initWebRTCStateMachine and cleanupResources.
use ant_media_server_confere.Base.{
  ℕ, String, Bool, true, false, not, none, some, [], ◌∷◌, ◌==◌, ◌&&◌, ◌||◌, is_empty, if◌then◌else◌,
}
use ant_media_server_confere.Base.Dict.{Dict, insert, contains, get_or, is_some}
use ant_media_server_confere.Base.Exec.{
  Exec, pure, gets, modify, call, emit, when, swallow, with_part, ◌>>=◌, ◌>>◌,
}
use ant_media_server_confere.Platform.{JsonLib, Rtc, Call, pc_close, pc_clear_callbacks}
use ant_media_server_confere.Signaling.State
use ant_media_server_confere.Signaling.Link
use ant_media_server_confere.Gst.State.{Target}
use ant_media_server_confere.Gst.State as GstState
use ant_media_server_confere.Gst.Pipelines.{start_video, start_audio}
use ant_media_server_confere.Gst.Player.{start_audio_player, stop_audio_player, destroy}
use ant_media_server_confere.Manager.State.{Manager, Method, with_signaling, with_gst, all_handlers}
use ant_media_server_confere.Manager.Peers.{setup_publish_peer}

-- `m[k]`, which adds a missing key with the value false.
unfoldable pub touch : String → Dict Bool → Dict Bool
touch k d = if contains k d then d else insert k false d

module _ (J : JsonLib) (R : Rtc) where
  -- The callbacks are set on the context, which is there.
  unfoldable pub init_webrtc_state_machine : Method
  unfolding with_signaling
  init_webrtc_state_machine = do
    stream_id ← gets (λ m. m.publish_stream_id)
    setup_publish_peer R stream_id
    with_signaling (modify (λ s. record s { handlers = all_handlers }))

  unfoldable pub close_peers : Dict ℕ → Method
  unfolding pure
  close_peers [] = pure tt
  close_peers ((id, pc) ∷ rest) = do
    emit (pc_clear_callbacks pc)
    call R.throws (pc_close pc)
    close_peers rest

  -- The three commands that leave the room, in a try block.
  unfoldable pub say_goodbye : Method
  unfolding with_signaling swallow
  say_goodbye = swallow (do
    with_signaling (Link.send_stop_publish J R)
    with_signaling (Link.send_stop_play_room J R)
    with_signaling (Link.send_leave_room J R))

  unfoldable pub clear_maps : Manager → Manager
  clear_maps m = record m {
    pcs = [];
    local_data_channels = [];
    remote_data_channels = [];
    remote_tracks = [];
    played = [];
    send_play = [];
    pending_candidates = [];
    mid_type_map = [];
    is_stream_talking = [];
    is_publisher = [];
  }

  -- `isPublisher[m_publishStreamId]` is read, and added, only if the tests before it hold.
  unfoldable pub leave_if_publisher : Method
  unfolding touch say_goodbye when
  leave_if_publisher = do
    m ← gets (λ m. m)
    when (is_some m.signaling && not (is_empty m.publish_stream_id)) (do
      modify (λ m. record m { is_publisher = touch m.publish_stream_id m.is_publisher })
      publishing ← gets (λ m. get_or false m.publish_stream_id m.is_publisher)
      when publishing say_goodbye)

  unfoldable pub drop_gst : Method
  unfolding with_gst
  drop_gst = do with_gst stop_audio_player; with_gst destroy; modify (λ m. record m { gst = none })

  -- Disconnect, ShutdownClient and reset, whose destructor disconnects again.
  unfoldable pub drop_signaling : Method
  unfolding with_signaling
  drop_signaling = do
    with_signaling (Link.disconnect R)
    with_signaling (modify Link.shutdown_client)
    with_signaling (Link.disconnect R)
    modify (λ m. record m { signaling = none })

  unfoldable pub cleanup_resources : Method
  unfolding leave_if_publisher drop_gst close_peers clear_maps drop_signaling
  cleanup_resources = do
    leave_if_publisher
    drop_gst
    peers ← gets (λ m. m.pcs)
    close_peers peers
    modify clear_maps
    drop_signaling

  unfoldable pub stop_running : Bool → Method
  unfolding cleanup_resources pure
  stop_running false = pure tt
  stop_running true = do cleanup_resources; modify (λ m. record m { is_communicating = false })

  unfoldable pub stop_2way_communication : Method
  unfolding stop_running
  stop_2way_communication = do running ← gets (λ m. m.is_communicating); stop_running running

  -- ~WebRTCManager, without the members' own destructors.
  unfoldable pub destroy_manager : Method
  unfolding stop_2way_communication
  destroy_manager = stop_2way_communication

  -- m_signalingContext->Connect(m_signalingServerUrl, m_publishStreamId).
  unfoldable pub connect : Exec Manager Call Bool
  unfolding with_part
  connect = do
    m ← gets (λ m. m)
    with_part false (λ m. m.signaling) (λ m s. record m { signaling = some s })
        (Link.connect R m.signaling_server_url m.publish_stream_id)

  unfoldable pub start_media : Target → Bool → Method
  unfolding with_gst when
  start_media target is_player = do
    modify (λ m. record m { gst = some (GstState.create 720 480 30 1000000 42 43) })
    when (not is_player) (do with_gst (start_video R target); with_gst (start_audio R target))
    with_gst (start_audio_player R)

  unfoldable pub settle : Bool → Exec Manager Call Bool
  unfolding cleanup_resources pure
  settle true = pure true
  settle false = do
    cleanup_resources
    modify (λ m. record m { is_communicating = false })
    pure false

  unfoldable pub start_new : Target → Bool → Exec Manager Call Bool
  unfolding start_media init_webrtc_state_machine connect settle
  start_new target is_player = do
    modify (λ m. record m { is_only_player = is_player; is_communicating = true })
    start_media target is_player
    modify (λ m. record m { signaling = some (State.create m.room_id) })
    init_webrtc_state_machine
    opened ← connect
    settle opened

  unfoldable pub start_if : Target → Bool → Manager → Exec Manager Call Bool
  unfolding start_new pure
  start_if target is_player m =
      if m.is_communicating
      then pure true
      else if is_empty m.signaling_server_url || m.signaling_server_url == "AMS_WEBSOCKET_URL"
      then pure false
      else start_new target is_player

  unfoldable pub start_2way_communication : Target → Bool → Exec Manager Call Bool
  unfolding start_if
  start_2way_communication target is_player = do m ← gets (λ m. m); start_if target is_player m
