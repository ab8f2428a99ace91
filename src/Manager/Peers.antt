-- ===== src/Manager/Peers.antt =====
-- setupPublishPeer, createPeerIfNotExist, removePeerIfNotExist, setupLocalTracks,
-- setupDataChannel, addRemoteTrack and the callbacks that they install.
use ant_media_server_confere.Base.{
  ℕ, String, Bool, true, false, not, Option, none, some, List, [], ◌∷◌, ◌++◌, ◌==◌,
}
use ant_media_server_confere.Base.Dict.{lookup, insert, erase, contains, get_or}
use ant_media_server_confere.Base.Exec.{
  Exec, pure, gets, modify, call, emit, observe, when, ◌>>=◌, ◌>>◌,
}
use ant_media_server_confere.Platform.{
  Rtc, Call, MediaDescription, video, audio, Media, send_only, pc_create, pc_close,
  pc_on_data_channel, pc_on_ice_state_change, pc_on_track, pc_on_local_candidate,
  pc_on_local_description, pc_add_track, pc_create_data_channel, dc_set_callbacks, dc_close,
  track_set_media_handler, track_on_message, track_on_open,
}
use ant_media_server_confere.Gst.Pipelines.{count, start_video, start_audio}
use ant_media_server_confere.Gst.Player.{push_audio_frame}
use ant_media_server_confere.Gst.State.{Target}
use ant_media_server_confere.Manager.State.{Manager, Method, with_gst}

-- pc->onDataChannel(...).
unfoldable pub setup_data_channel : ℕ → Method
unfolding emit
setup_data_channel pc = emit (pc_on_data_channel pc)

abbrev pub local_video : MediaDescription
local_video = record {
  media = video;
  name = "video-stream";
  direction = send_only;
  payload_type = 96;
  ssrc = some 42;
}

abbrev pub local_audio : MediaDescription
local_audio = record {
  media = audio;
  name = "audio-stream";
  direction = send_only;
  payload_type = 111;
  ssrc = some 43;
}

module _ (R : Rtc) where
  unfoldable pub create_peer : String → Bool → Exec Manager Call ℕ
  unfolding setup_data_channel
  create_peer stream_id need_dc = do
    pc ← observe count
    call R.throws (pc_create pc)
    modify (λ m. record m {
      pcs = insert stream_id pc m.pcs;
      is_publisher = insert stream_id false m.is_publisher;
    })
    when need_dc (setup_data_channel pc)
    emit (pc_on_track pc stream_id)
    emit (pc_on_local_candidate pc stream_id)
    emit (pc_on_local_description pc stream_id)
    emit (pc_on_ice_state_change pc)
    pure pc

  unfoldable pub peer_or_new : String → Bool → Option ℕ → Exec Manager Call ℕ
  unfolding create_peer pure
  peer_or_new stream_id need_dc (some pc) = pure pc
  peer_or_new stream_id need_dc none = create_peer stream_id need_dc

  unfoldable pub create_peer_if_not_exist : String → Bool → Exec Manager Call ℕ
  unfolding peer_or_new
  create_peer_if_not_exist stream_id need_dc = do
    existing ← gets (λ m. lookup stream_id m.pcs)
    peer_or_new stream_id need_dc existing

  unfoldable pub setup_local_tracks : ℕ → Method
  setup_local_tracks pc = do
    video_track ← observe count
    call R.throws (pc_add_track pc local_video)
    emit (track_on_open video_track)
    audio_track ← observe count
    call R.throws (pc_add_track pc local_audio)
    emit (track_on_open audio_track)

  -- The local track has opened: frames go to it, and the pipeline is started.
  unfoldable pub on_local_track_open : Target → Media → ℕ → Method
  unfolding with_gst
  on_local_track_open target video track =
      with_gst (do modify (λ g. record g { on_video_rtp_frame = some track }); start_video R target)
  on_local_track_open target audio track =
      with_gst (do modify (λ g. record g { on_audio_rtp_frame = some track }); start_audio R target)

  unfoldable pub create_local_channel : ℕ → String → Method
  create_local_channel pc stream_id = do
    dc ← observe count
    call R.throws (pc_create_data_channel pc stream_id)
    modify (λ m. record m { local_data_channels = insert stream_id dc m.local_data_channels })
    emit (dc_set_callbacks dc)

  unfoldable pub new_publish_peer : String → Method
  unfolding create_peer_if_not_exist setup_local_tracks create_local_channel when
  new_publish_peer stream_id = do
    pc ← create_peer_if_not_exist stream_id true
    modify (λ m. record m {
      publish_stream_id = stream_id;
      is_publisher = insert stream_id true m.is_publisher;
    })
    player ← gets (λ m. m.is_only_player)
    when (not player) (setup_local_tracks pc)
    has_channel ← gets (λ m. contains stream_id m.local_data_channels)
    when (not has_channel) (create_local_channel pc stream_id)

  unfoldable pub setup_publish_peer : String → Method
  unfolding new_publish_peer when
  setup_publish_peer stream_id = do
    exists ← gets (λ m. contains stream_id m.pcs)
    when (not exists) (new_publish_peer stream_id)

  -- `if (dc->isOpen()) dc->close();`
  unfoldable pub close_if_open : ℕ → Method
  unfolding when
  close_if_open dc = do
    is_open ← observe (λ cs. R.dc_open cs dc)
    when is_open (call R.throws (dc_close dc))

  unfoldable pub drop_local_channel : String → Option ℕ → Method
  unfolding close_if_open pure
  drop_local_channel stream_id none = pure tt
  drop_local_channel stream_id (some dc) = do
    close_if_open dc
    modify (λ m. record m { local_data_channels = erase stream_id m.local_data_channels })

  unfoldable pub drop_remote_channel : String → Option ℕ → Method
  unfolding close_if_open pure
  drop_remote_channel stream_id none = pure tt
  drop_remote_channel stream_id (some dc) = do
    close_if_open dc
    modify (λ m. record m { remote_data_channels = erase stream_id m.remote_data_channels })

  unfoldable pub drop_peer : String → Option ℕ → Method
  unfolding pure
  drop_peer stream_id none = pure tt
  drop_peer stream_id (some pc) = do
    call R.throws (pc_close pc)
    modify (λ m. record m { pcs = erase stream_id m.pcs })

  unfoldable pub remove_peer_if_not_exist : String → Method
  unfolding drop_local_channel drop_remote_channel drop_peer
  remove_peer_if_not_exist stream_id = do
    local_channel ← gets (λ m. lookup stream_id m.local_data_channels)
    drop_local_channel stream_id local_channel
    remote_channel ← gets (λ m. lookup stream_id m.remote_data_channels)
    drop_remote_channel stream_id remote_channel
    peer ← gets (λ m. lookup stream_id m.pcs)
    drop_peer stream_id peer
    modify (λ m. record m {
      played = erase stream_id m.played;
      send_play = erase stream_id m.send_play;
    })

  unfoldable pub add_remote_track : ℕ → String → Method
  add_remote_track track stream_id = do
    modify (λ m. record m {
      remote_tracks =
          insert stream_id (get_or [] stream_id m.remote_tracks ++ track ∷ []) m.remote_tracks;
    })
    emit (track_set_media_handler track)
    kind ← gets (λ m. get_or (R.track_type track) (R.track_mid track) m.mid_type_map)
    emit (track_on_message track kind)

  -- track->onMessage at bytes. `play_stream` is computed and not used, as in the source.
  unfoldable pub on_track_message : String → String → List ℕ → Method
  unfolding when with_gst
  on_track_message kind stream_id bytes = when (kind == "audio") (do
    play_stream ← gets (λ m. get_or false stream_id m.is_stream_talking)
    with_gst (push_audio_frame R bytes))

  -- The callback of setupDataChannel.
  unfoldable pub on_data_channel : ℕ → Method
  unfolding when
  on_data_channel remote_dc = do
    known ← gets (λ m. contains (R.dc_label remote_dc) m.remote_data_channels)
    when (not known) (do
      modify (λ m. record m {
        remote_data_channels = insert (R.dc_label remote_dc) remote_dc m.remote_data_channels;
      })
      emit (dc_set_callbacks remote_dc))
