-- ===== src/Manager/Candidates.antt =====
-- ICE candidates that come before the peer connection is there.
use mathlib.Core.Path.{refl}
use ant_media_server_confere.Base.{
  string_dec, ℕ, String, ◌≡◌, ◌∙◌, Bool, true, false, none, some, List, [], ◌∷◌, ◌==◌, is_empty,
  if◌then◌else◌,
}
use ant_media_server_confere.Base.Dict.{Dict, lookup, insert, erase}
use ant_media_server_confere.Base.Exec.{
  done, pure, gets, modify, emit, observe, when, bind_done, call_done, ◌>>◌,
}
use ant_media_server_confere.Platform.{
  JsonLib, Rtc, Call, Candidate, answer, pc_create, pc_on_data_channel, pc_on_track,
  pc_on_local_candidate, pc_on_local_description, pc_on_ice_state_change, pc_add_remote_candidate,
  pc_set_remote_description,
}
use ant_media_server_confere.Manager.State.{Manager, Method}
use ant_media_server_confere.Manager.Sdp.{
  add_candidates, flush_candidates, add_remote_candidate, handle_remote_sdp, sdp_type,
}
use ant_media_server_confere.Manager.Peers.{
  create_peer, create_peer_if_not_exist, peer_or_new, setup_data_channel,
}
use ant_media_server_confere.Gst.Pipelines.{count}

-- Candidates whose texts are not empty.
abbrev pub AllNamed : List Candidate → Type 0
AllNamed [] = Unit
AllNamed (c ∷ cs) = (is_empty c.candidate ≡ false) × AllNamed cs

-- The calls that hand candidates over, newest first, on top of earlier calls.
abbrev pub handed : ℕ → List Candidate → List Call → List Call
handed pc [] cs = cs
handed pc (c ∷ l) cs = handed pc l (pc_add_remote_candidate pc c ∷ cs)

module _ (J : JsonLib) (R : Rtc) where
  -- addRemoteCandidate for each of the candidates of a stream, in the order in which they come.
  unfoldable pub add_all : String → List Candidate → Method
  unfolding pure
  add_all stream_id [] = pure tt
  add_all stream_id (c ∷ rest) = do
    add_remote_candidate J R stream_id c.candidate c.mid
    add_all stream_id rest

  -- The loop of handleRemoteSDP hands the candidates over in their order.
  add_candidates-handed :
      (pc : ℕ) (l : List Candidate) (m : Manager) (cs : List Call)
      → ((c : Candidate) (ds : List Call) → R.throws (pc_add_remote_candidate pc c ∷ ds) ≡ false)
      → add_candidates J R pc l m cs ≡ done tt m (handed pc l cs)
  unfolding add_candidates
  add_candidates-handed pc [] m cs quiet = refl
  add_candidates-handed pc (c ∷ rest) m cs quiet =
      bind_done _ _ m cs (call_done R.throws _ m cs (quiet c cs))
      ∙ add_candidates-handed pc rest m _ quiet

-- The calls that make a peer connection for a stream, newest first.
abbrev pub created : ℕ → String → Bool → List Call → List Call
created pc stream_id need_dc cs =
    pc_on_ice_state_change pc
    ∷ pc_on_local_description pc stream_id
    ∷ pc_on_local_candidate pc stream_id
    ∷ pc_on_track pc stream_id
    ∷ (if need_dc then pc_on_data_channel pc ∷ pc_create pc ∷ cs else pc_create pc ∷ cs)

module _ (J : JsonLib) (R : Rtc) (quiet : (ds : List Call) → R.throws ds ≡ false) where
  pub create_peer-created :
      (stream_id : String) (need_dc : Bool) (m : Manager) (cs : List Call)
      → create_peer R stream_id need_dc m cs
        ≡ done
            (count cs)
            (record m {
              pcs = insert stream_id (count cs) m.pcs;
              is_publisher = insert stream_id false m.is_publisher;
            })
            (created (count cs) stream_id need_dc cs)
  unfolding create_peer setup_data_channel observe emit modify when pure
  create_peer-created stream_id need_dc m cs = made need_dc
    where
      pc : ℕ
      pc = count cs

      m₁ : Manager
      m₁ = record m {
        pcs = insert stream_id pc m.pcs;
        is_publisher = insert stream_id false m.is_publisher;
      }

      hooked :
          (ds : List Call)
          → (do
            emit (pc_on_track pc stream_id)
            emit (pc_on_local_candidate pc stream_id)
            emit (pc_on_local_description pc stream_id)
            emit (pc_on_ice_state_change pc)
            pure pc)
              m₁ ds
            ≡ done pc m₁ (
                pc_on_ice_state_change pc
                ∷ pc_on_local_description pc stream_id
                ∷ pc_on_local_candidate pc stream_id
                ∷ pc_on_track pc stream_id
                ∷ ds)
      hooked ds =
          bind_done _ _ m₁ ds refl
          ∙ bind_done _ _ m₁ _ refl
          ∙ bind_done _ _ m₁ _ refl
          ∙ bind_done _ _ m₁ _ refl

      made : (b : Bool) → create_peer R stream_id b m cs ≡ done pc m₁ (created pc stream_id b cs)
      made true =
          bind_done _ _ m cs refl
          ∙ bind_done _ _ m cs (call_done R.throws _ m cs (quiet _))
          ∙ bind_done _ _ m _ refl
          ∙ bind_done _ _ m₁ _ refl
          ∙ hooked _
      made false =
          bind_done _ _ m cs refl
          ∙ bind_done _ _ m cs (call_done R.throws _ m cs (quiet _))
          ∙ bind_done _ _ m _ refl
          ∙ bind_done _ _ m₁ _ refl
          ∙ hooked _

  pub flush_handed :
      (pc : ℕ) (stream_id : String) (l : List Candidate) (m : Manager) (cs : List Call)
      → lookup stream_id m.pending_candidates ≡ some l
      → flush_candidates J R pc stream_id (lookup stream_id m.pending_candidates) m cs
        ≡ done tt
            (record m { pending_candidates = erase stream_id m.pending_candidates })
            (handed pc l cs)
  unfolding flush_candidates modify
  flush_handed pc stream_id l m cs e =
      rw e (bind_done _ _ m cs (add_candidates-handed J R pc l m cs (λ c ds. quiet _)))

  -- If the library throws nothing, an answer for a stream with waiting candidates and no peer
  -- connection makes the connection, sets the remote description, and only then hands over the
  -- candidates, in the order in which they came; none is left waiting.
  pub handle_remote_sdp_hands_over :
      (stream_id sdp : String) (l : List Candidate) (m : Manager) (cs : List Call)
      → lookup stream_id m.pcs ≡ none
      → lookup stream_id m.pending_candidates ≡ some l
      → let pc = count cs in
        handle_remote_sdp J R stream_id "answer" sdp m cs
        ≡ done tt
            (record m {
              pcs = insert stream_id pc m.pcs;
              is_publisher = insert stream_id false m.is_publisher;
              pending_candidates = erase stream_id m.pending_candidates;
            })
            (handed pc l (
              pc_set_remote_description pc answer sdp
              ∷ created pc stream_id (stream_id == m.room_id) cs))
  unfolding handle_remote_sdp create_peer_if_not_exist peer_or_new gets when sdp_type string_dec
  handle_remote_sdp_hands_over stream_id sdp l m cs absent waiting =
      let pc : ℕ = count cs in
      let m₁ : Manager = record m {
        pcs = insert stream_id pc m.pcs;
        is_publisher = insert stream_id false m.is_publisher;
      } in
      let cs₁ : List Call = created pc stream_id (stream_id == m.room_id) cs in
      bind_done _ _ m cs refl
      ∙ bind_done _ _ m cs (
          bind_done _ _ m cs refl
          ∙ rw absent (create_peer-created stream_id (stream_id == m.room_id) m cs))
      ∙ bind_done _ _ m₁ cs₁ refl
      ∙ bind_done _ _ m₁ cs₁ (call_done R.throws _ m₁ cs₁ (quiet _))
      ∙ bind_done _ _ m₁ _ refl
      ∙ bind_done _ _ m₁ _ (flush_handed pc stream_id l m₁ _ waiting)
