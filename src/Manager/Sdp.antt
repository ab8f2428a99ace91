-- ===== src/Manager/Sdp.antt =====
-- prepareRecvTracksFromSDP, handleRemoteSDP, addRemoteCandidate and startOffer.
use ant_media_server_confere.Base.{
  ℕ, String, Bool, Option, none, some, List, [], ◌∷◌, ◌++◌, ◌==◌, ◌&&◌, ◌||◌, ◌<>◌, is_empty,
  if◌then◌else◌,
}
use ant_media_server_confere.Base.Decimal.{to_string}
use ant_media_server_confere.Base.Dict.{lookup, insert, erase, get_or}
use ant_media_server_confere.Base.Exec.{
  Exec, pure, gets, try_pure, modify, call, observe, when, ◌>>=◌, ◌>>◌,
}
use ant_media_server_confere.Platform.{
  JsonLib, Rtc, Call, Candidate, MediaDescription, video, audio, recv_only, SdpType, offer, answer,
  pc_add_track, pc_set_remote_description, pc_set_local_description, pc_add_remote_candidate,
}
use ant_media_server_confere.Platform.Int.{ℤ, pos, negsuc}
use ant_media_server_confere.Gst.Pipelines.{count}
use ant_media_server_confere.Manager.State.{Manager, Method}
use ant_media_server_confere.Manager.Peers.{create_peer_if_not_exist}

-- The tests on a media section and on a codec.
unfoldable pub wanted : String → String → Bool
wanted type direction =
    (direction == "sendrecv" || direction == "sendonly") && (type == "audio" || type == "video")

unfoldable pub codec_fits : String → String → Bool
codec_fits type codec = type == "video" && codec == "H264" || type == "audio" && codec == "opus"

-- `type == "offer" ? Offer : Answer`.
unfoldable pub sdp_type : String → SdpType
sdp_type type = if type == "offer" then offer else answer

unfoldable pub recv_description : String → ℕ → MediaDescription
recv_description type payload_type = record {
  media = if type == "video" then video else audio;
  name = "remote-" <> type <> "-" <> to_string payload_type;
  direction = recv_only;
  payload_type = payload_type;
  ssrc = none;
}

module _ (J : JsonLib) where
  -- The loop over media["rtp"]: the payload of the first codec that fits, and -1 if none does.
  unfoldable pub find_payload : String → List J.Json → Exec Manager Call ℤ
  unfolding codec_fits pure
  find_payload type [] = pure (negsuc 0)
  find_payload type (rtp ∷ rest) = do
    codec ← try_pure (J.value rtp "codec" "")
    payload ← try_pure (J.value_int rtp "payload" (negsuc 0))
    if codec_fits type codec then pure payload else find_payload type rest

  unfoldable pub payload_of : String → J.Json → Exec Manager Call ℤ
  unfolding find_payload pure
  payload_of type media =
      if J.contains media "rtp"
      then find_payload type (J.elements (J.at media "rtp"))
      else pure (negsuc 0)

module _ (J : JsonLib) (R : Rtc) where
  unfoldable pub add_recv_track : ℕ → String → ℤ → Method
  unfolding recv_description pure
  add_recv_track pc type (negsuc n) = pure tt
  add_recv_track pc type (pos payload_type) = do
    track ← observe count
    call R.throws (pc_add_track pc (recv_description type payload_type))
    modify (λ m. record m { mid_type_map = insert (R.track_mid track) type m.mid_type_map })

  -- The body of the loop over sdpJson["media"].
  unfoldable pub prepare_media : ℕ → J.Json → Method
  unfolding wanted payload_of add_recv_track pure
  prepare_media pc media = do
    type ← try_pure (J.value media "type" "")
    direction ← try_pure (J.value media "direction" "sendrecv")
    if wanted type direction
        then (do payload ← payload_of J type media; add_recv_track pc type payload)
        else pure tt

  unfoldable pub prepare_all : ℕ → List J.Json → Method
  unfolding prepare_media pure
  prepare_all pc [] = pure tt
  prepare_all pc (media ∷ rest) = do prepare_media pc media; prepare_all pc rest

  unfoldable pub prepare_recv_tracks_from_sdp : ℕ → String → Method
  unfolding prepare_all when
  prepare_recv_tracks_from_sdp pc sdp = do
    sdp_json ← try_pure (J.sdp_parse sdp)
    when (J.contains sdp_json "media") (prepare_all pc (J.elements (J.at sdp_json "media")))

  unfoldable pub add_candidates : ℕ → List Candidate → Method
  unfolding pure
  add_candidates pc [] = pure tt
  add_candidates pc (c ∷ rest) = do
    call R.throws (pc_add_remote_candidate pc c)
    add_candidates pc rest

  unfoldable pub flush_candidates : ℕ → String → Option (List Candidate) → Method
  unfolding add_candidates pure
  flush_candidates pc stream_id none = pure tt
  flush_candidates pc stream_id (some candidates) = do
    add_candidates pc candidates
    modify (λ m. record m { pending_candidates = erase stream_id m.pending_candidates })

  -- The constructor of Description throws as setRemoteDescription does, and nothing stands between
  -- the two, so they are one call.
  unfoldable pub handle_remote_sdp : String → String → String → Method
  unfolding create_peer_if_not_exist prepare_recv_tracks_from_sdp flush_candidates sdp_type when
  handle_remote_sdp stream_id type sdp = do
    need_dc ← gets (λ m. stream_id == m.room_id)
    pc ← create_peer_if_not_exist R stream_id need_dc
    when (type == "offer") (prepare_recv_tracks_from_sdp pc sdp)
    call R.throws (pc_set_remote_description pc (sdp_type type) sdp)
    pending ← gets (λ m. lookup stream_id m.pending_candidates)
    flush_candidates pc stream_id pending
    when (type == "offer") (call R.throws (pc_set_local_description pc answer))

  unfoldable pub candidate_to : String → Candidate → Option ℕ → Method
  candidate_to stream_id c none = modify (λ m. record m {
    pending_candidates =
        insert stream_id (get_or [] stream_id m.pending_candidates ++ c ∷ []) m.pending_candidates;
  })
  candidate_to stream_id c (some pc) = call R.throws (pc_add_remote_candidate pc c)

  unfoldable pub add_remote_candidate : String → String → String → Method
  unfolding candidate_to pure
  add_remote_candidate stream_id cand mid = if is_empty cand then pure tt else (do
    peer ← gets (λ m. lookup stream_id m.pcs)
    candidate_to stream_id (record { candidate = cand; mid = mid }) peer)

  unfoldable pub offer_to : Option ℕ → Method
  unfolding pure
  offer_to none = pure tt
  offer_to (some pc) = call R.throws (pc_set_local_description pc offer)

  unfoldable pub start_offer : String → Method
  unfolding offer_to
  start_offer stream_id = do peer ← gets (λ m. lookup stream_id m.pcs); offer_to peer
