-- ===== src/Manager/Running/Descriptions.antt =====
-- The methods on descriptions and candidates keep the invariant.
use mathlib.Core.Path.{refl}
use ant_media_server_confere.Base.{ℕ, String, Option, none, some, List, [], ◌∷◌}
use ant_media_server_confere.Base.Exec.Keeps.{Keeps, Keeps-pure, Keeps-bind, Keeps-if}
use ant_media_server_confere.Platform.{JsonLib, Rtc, Candidate}
use ant_media_server_confere.Platform.Int.{ℤ, pos, negsuc}
use ant_media_server_confere.Manager.Sdp.{
  find_payload, payload_of, add_recv_track, prepare_media, prepare_all,
  prepare_recv_tracks_from_sdp, add_candidates, flush_candidates, handle_remote_sdp, candidate_to,
  add_remote_candidate, offer_to, start_offer,
}
use ant_media_server_confere.Manager.Running.Facts.{IsRunning, running_rules, frame-IsRunning}
use ant_media_server_confere.Manager.Running.Adding.{create_peer_if_not_exist-IsRunning}

ruleset description_rules =
    (running_rules, frame-IsRunning, refl, create_peer_if_not_exist-IsRunning)

module _ (J : JsonLib) where
  find_payload-IsRunning :
      (type : String) (l : List J.Json) → Keeps IsRunning (find_payload J type l)
  unfolding find_payload
  find_payload-IsRunning type [] = search description_rules
  find_payload-IsRunning type (rtp ∷ rest) = Keeps-bind _ _ (search description_rules) (λ codec.
      Keeps-bind _ _ (search description_rules) (λ payload.
        Keeps-if _ _ _ (λ _. Keeps-pure payload) (λ _. find_payload-IsRunning type rest)))

  payload_of-IsRunning :
      (type : String) (media : J.Json) → Keeps IsRunning (payload_of J type media)
  unfolding payload_of
  payload_of-IsRunning type media = search (description_rules, find_payload-IsRunning)

module _ (J : JsonLib) (R : Rtc) where
  add_recv_track-IsRunning :
      (pc : ℕ) (type : String) (payload : ℤ) → Keeps IsRunning (add_recv_track J R pc type payload)
  unfolding add_recv_track
  add_recv_track-IsRunning pc type (negsuc n) = search description_rules
  add_recv_track-IsRunning pc type (pos n) = search description_rules depth 20

  prepare_media-IsRunning : (pc : ℕ) (media : J.Json) → Keeps IsRunning (prepare_media J R pc media)
  unfolding prepare_media
  prepare_media-IsRunning pc media =
      search (description_rules, payload_of-IsRunning, add_recv_track-IsRunning) depth 20

  prepare_all-IsRunning : (pc : ℕ) (l : List J.Json) → Keeps IsRunning (prepare_all J R pc l)
  unfolding prepare_all
  prepare_all-IsRunning pc [] = search description_rules
  prepare_all-IsRunning pc (media ∷ rest) =
      Keeps-bind _ _ (prepare_media-IsRunning pc media) (λ _. prepare_all-IsRunning pc rest)

  prepare_recv_tracks_from_sdp-IsRunning :
      (pc : ℕ) (sdp : String) → Keeps IsRunning (prepare_recv_tracks_from_sdp J R pc sdp)
  unfolding prepare_recv_tracks_from_sdp
  prepare_recv_tracks_from_sdp-IsRunning pc sdp = search (description_rules, prepare_all-IsRunning)

  add_candidates-IsRunning :
      (pc : ℕ) (l : List Candidate) → Keeps IsRunning (add_candidates J R pc l)
  unfolding add_candidates
  add_candidates-IsRunning pc [] = search description_rules
  add_candidates-IsRunning pc (c ∷ rest) =
      Keeps-bind _ _ (search description_rules) (λ _. add_candidates-IsRunning pc rest)

  flush_candidates-IsRunning :
      (pc : ℕ) (stream_id : String) (l : Option (List Candidate))
      → Keeps IsRunning (flush_candidates J R pc stream_id l)
  unfolding flush_candidates
  flush_candidates-IsRunning pc stream_id none = search description_rules
  flush_candidates-IsRunning pc stream_id (some l) =
      search (description_rules, add_candidates-IsRunning) depth 20

  pub handle_remote_sdp-IsRunning :
      (stream_id type sdp : String) → Keeps IsRunning (handle_remote_sdp J R stream_id type sdp)
  unfolding handle_remote_sdp
  handle_remote_sdp-IsRunning stream_id type sdp =
      search (description_rules, prepare_recv_tracks_from_sdp-IsRunning, flush_candidates-IsRunning)
        depth 20

  candidate_to-IsRunning :
      (stream_id : String) (c : Candidate) (pc : Option ℕ)
      → Keeps IsRunning (candidate_to J R stream_id c pc)
  unfolding candidate_to
  candidate_to-IsRunning stream_id c none = search description_rules
  candidate_to-IsRunning stream_id c (some pc) = search description_rules

  pub add_remote_candidate-IsRunning :
      (stream_id cand mid : String) → Keeps IsRunning (add_remote_candidate J R stream_id cand mid)
  unfolding add_remote_candidate
  add_remote_candidate-IsRunning stream_id cand mid =
      search (description_rules, candidate_to-IsRunning) depth 20

  offer_to-IsRunning : (pc : Option ℕ) → Keeps IsRunning (offer_to J R pc)
  unfolding offer_to
  offer_to-IsRunning none = search description_rules
  offer_to-IsRunning (some pc) = search description_rules

  pub start_offer-IsRunning : (stream_id : String) → Keeps IsRunning (start_offer J R stream_id)
  unfolding start_offer
  start_offer-IsRunning stream_id = search (description_rules, offer_to-IsRunning)
