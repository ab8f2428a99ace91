-- ===== src/Manager/Answers.antt =====
-- From an offer of the server to the answer.
use mathlib.Core.Path.{refl}
use ant_media_server_confere.Base.{
  string_dec, ℕ, String, ◌≡◌, ◌∙◌, true, false, Option, none, some, List, ◌∷◌, ◌==◌,
}
use ant_media_server_confere.Base.Dict.{Dict, lookup, insert, erase}
use ant_media_server_confere.Base.Exec.{done, pure, gets, when, bind_done, call_done}
use ant_media_server_confere.Platform.{
  JsonLib, Rtc, Call, Candidate, offer, answer, pc_set_remote_description, pc_set_local_description,
}
use ant_media_server_confere.Manager.State.{Manager}
use ant_media_server_confere.Manager.Sdp.{flush_candidates, handle_remote_sdp, sdp_type}
use ant_media_server_confere.Manager.Peers.{create_peer_if_not_exist, peer_or_new}
use ant_media_server_confere.Manager.Candidates.{handed, created, create_peer-created, flush_handed}
use ant_media_server_confere.Manager.Offers.Sections.{Section, all_accepted, noted, added}
use ant_media_server_confere.Manager.Offers.{SectionsRead, prepare_recv_tracks_from_sdp-with_tracks}
use ant_media_server_confere.Gst.Pipelines.{count}

-- The candidates that wait for a stream, handed over, and the map without them.
abbrev pub handed_waiting : ℕ → Option (List Candidate) → List Call → List Call
handed_waiting pc none cs = cs
handed_waiting pc (some l) cs = handed pc l cs

abbrev pub without_waiting :
    String → Option (List Candidate) → Dict (List Candidate) → Dict (List Candidate)
without_waiting stream_id none d = d
without_waiting stream_id (some l) d = erase stream_id d

module _ (J : JsonLib) (R : Rtc) (quiet : (ds : List Call) → R.throws ds ≡ false) where
  flush_waiting :
      (pc : ℕ) (stream_id : String) (o : Option (List Candidate)) (m : Manager) (cs : List Call)
      → lookup stream_id m.pending_candidates ≡ o
      → flush_candidates J R pc stream_id (lookup stream_id m.pending_candidates) m cs
        ≡ done tt
            (record m { pending_candidates = without_waiting stream_id o m.pending_candidates })
            (handed_waiting pc o cs)
  unfolding flush_candidates pure
  flush_waiting pc stream_id none m cs e = rw e refl
  flush_waiting pc stream_id (some l) m cs e = flush_handed J R quiet pc stream_id l m cs e

  -- If the library throws nothing, an offer that is read as media sections, for a stream with no
  -- peer connection, is answered: the connection is made, each section that is accepted gets its
  -- receiving track, then the remote description is set, then the candidates that wait are handed
  -- over in the order in which they came, and last the local answer is set. No candidate of the
  -- stream is left waiting, the mids of the tracks are noted, and nothing else changes but the maps
  -- of connections and roles, which have the stream.
  pub handle_remote_sdp_answers :
      (stream_id sdp : String) (json : J.Json) (sections : List Section)
      (o : Option (List Candidate)) (m : Manager) (cs : List Call)
      → lookup stream_id m.pcs ≡ none
      → lookup stream_id m.pending_candidates ≡ o
      → J.sdp_parse sdp ≡ some json
      → J.contains json "media" ≡ true
      → SectionsRead J (J.elements (J.at json "media")) sections
      → let pc = count cs in
        let cs₁ = created pc stream_id (stream_id == m.room_id) cs in
        let tracks = all_accepted sections in
        handle_remote_sdp J R stream_id "offer" sdp m cs
        ≡ done tt
            (record m {
              pcs = insert stream_id pc m.pcs;
              is_publisher = insert stream_id false m.is_publisher;
              mid_type_map = noted R pc tracks m.mid_type_map cs₁;
              pending_candidates = without_waiting stream_id o m.pending_candidates;
            })
            (pc_set_local_description pc answer
              ∷ handed_waiting pc o (pc_set_remote_description pc offer sdp ∷ added pc tracks cs₁))
  unfolding handle_remote_sdp create_peer_if_not_exist peer_or_new gets when sdp_type string_dec
  handle_remote_sdp_answers stream_id sdp json sections o m cs absent waiting parsed media read =
      let pc : ℕ = count cs in
      let m₁ : Manager = record m {
        pcs = insert stream_id pc m.pcs;
        is_publisher = insert stream_id false m.is_publisher;
      } in
      let cs₁ : List Call = created pc stream_id (stream_id == m.room_id) cs in
      let m₂ : Manager = record m₁ {
        mid_type_map = noted R pc (all_accepted sections) m.mid_type_map cs₁;
      } in
      let cs₂ : List Call = added pc (all_accepted sections) cs₁ in
      bind_done _ _ m cs refl
      ∙ bind_done _ _ m cs (
          bind_done _ _ m cs refl
          ∙ rw absent (create_peer-created J R quiet stream_id (stream_id == m.room_id) m cs))
      ∙ bind_done _ _ m₁ cs₁ (
          prepare_recv_tracks_from_sdp-with_tracks J R pc (λ d ds. quiet _) sdp json sections m₁ cs₁
            parsed media read)
      ∙ bind_done _ _ m₂ cs₂ (call_done R.throws _ m₂ cs₂ (quiet _))
      ∙ bind_done _ _ m₂ _ refl
      ∙ bind_done _ _ m₂ _ (flush_waiting pc stream_id o m₂ _ waiting)
      ∙ call_done R.throws _ _ _ (quiet _)
