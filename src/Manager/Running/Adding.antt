-- ===== src/Manager/Running/Adding.antt =====
-- The methods that add peer connections keep the invariant.
use ant_media_server_confere.Base.{
  ℕ, String, ◌≡◌, sym, Bool, true, false, not, Option, none, some, List, arith,
}
use ant_media_server_confere.Base.Dict.{contains, lookup, insert, lookup-insert}
use ant_media_server_confere.Base.Exec.{pure, gets, modify, call, emit, when, ◌>>=◌, ◌>>◌}
use ant_media_server_confere.Base.Exec.Keeps.{
  Keeps, Keeps-pure, Keeps-call, Keeps-emit, Keeps-modify, keeps_rules,
}
use ant_media_server_confere.Base.Exec.Ensures.{
  Ensures, Ensures-of_Keeps, Keeps-of_Ensures, Ensures-bind, Ensures-pure, Ensures-gets,
  Ensures-modify, Ensures-weaken,
}
use ant_media_server_confere.Platform.{
  Rtc, Call, pc_on_track, pc_on_local_candidate, pc_on_local_description, pc_on_ice_state_change,
}
use ant_media_server_confere.Manager.State.{Manager}
use ant_media_server_confere.Manager.Peers.{
  create_peer_if_not_exist, peer_or_new, create_peer, setup_data_channel, setup_local_tracks,
  create_local_channel, new_publish_peer, setup_publish_peer,
}
use ant_media_server_confere.Manager.Running.Facts.{IsRunning, running_rules, add_peer-IsRunning}

module _ (R : Rtc) where
  create_peer-IsRunning :
      (stream_id : String) (need_dc : Bool) → Keeps IsRunning (create_peer R stream_id need_dc)
  unfolding create_peer setup_data_channel
  create_peer-IsRunning stream_id need_dc = search (running_rules, add_peer-IsRunning) depth 20

  peer_or_new-IsRunning :
      (stream_id : String) (need_dc : Bool) (existing : Option ℕ)
      → Keeps IsRunning (peer_or_new R stream_id need_dc existing)
  unfolding peer_or_new
  peer_or_new-IsRunning stream_id need_dc none = create_peer-IsRunning stream_id need_dc
  peer_or_new-IsRunning stream_id need_dc (some pc) = Keeps-pure pc

  pub create_peer_if_not_exist-IsRunning :
      (stream_id : String) (need_dc : Bool)
      → Keeps IsRunning (create_peer_if_not_exist R stream_id need_dc)
  unfolding create_peer_if_not_exist
  create_peer_if_not_exist-IsRunning stream_id need_dc =
      search (running_rules, peer_or_new-IsRunning)

-- The invariant, and a peer connection for the stream.
record HasPeer (stream_id : String) (m : Manager) (cs : List Call) : Type 0 where
  running : IsRunning m cs
  has_peer : contains stream_id m.pcs ≡ true

module _ (stream_id : String) where
  call-HasPeer : (throws : List Call → Bool) (c : Call) → Keeps (HasPeer stream_id) (call throws c)
  call-HasPeer throws c = Keeps-call throws c (λ s cs h. record {
    running = record {
      communicating = h.running.communicating;
      channel_has_peer = h.running.channel_has_peer;
      peer_has_role = h.running.peer_has_role;
    };
    has_peer = h.has_peer;
  })

  emit-HasPeer : (c : Call) → Keeps (HasPeer stream_id) (emit c)
  emit-HasPeer c = Keeps-emit c (λ s cs h. record {
    running = record {
      communicating = h.running.communicating;
      channel_has_peer = h.running.channel_has_peer;
      peer_has_role = h.running.peer_has_role;
    };
    has_peer = h.has_peer;
  })

  add_peer-HasPeer :
      (pc : ℕ) (m : Manager) (cs : List Call)
      → IsRunning m cs
      → HasPeer stream_id
          (record m {
            pcs = insert stream_id pc m.pcs;
            is_publisher = insert stream_id false m.is_publisher;
          })
          cs
  unfolding modify
  add_peer-HasPeer pc m cs h = record {
    running = (add_peer-IsRunning stream_id pc).at m cs h;
    has_peer = ground (arith, lookup-insert stream_id stream_id pc m.pcs);
  }

  set_role-HasPeer : Keeps (HasPeer stream_id) (
      modify (λ m. record m {
        publish_stream_id = stream_id;
        is_publisher = insert stream_id true m.is_publisher;
      }))
  set_role-HasPeer = Keeps-modify _ λ s cs h. record {
    running = record {
      communicating = h.running.communicating;
      channel_has_peer = h.running.channel_has_peer;
      peer_has_role = λ k e.
          ground
            (arith, h.running.peer_has_role k e, lookup-insert k stream_id true s.is_publisher);
    };
    has_peer = h.has_peer;
  }

  add_channel-HasPeer :
      (dc : ℕ)
      → Keeps (HasPeer stream_id) (
          modify
            (λ m. record m { local_data_channels = insert stream_id dc m.local_data_channels }))
  add_channel-HasPeer dc = Keeps-modify _ λ s cs h. record {
    running = record {
      communicating = h.running.communicating;
      channel_has_peer = λ k e. ground (
        arith,
        h.running.channel_has_peer k,
        h.has_peer,
        lookup-insert k stream_id dc s.local_data_channels,
      );
      peer_has_role = h.running.peer_has_role;
    };
    has_peer = h.has_peer;
  }

ruleset has_peer_rules =
    (keeps_rules, call-HasPeer, emit-HasPeer, set_role-HasPeer, add_channel-HasPeer)

HasPeer-running :
    (stream_id : String) (m : Manager) (cs : List Call) → HasPeer stream_id m cs → IsRunning m cs
HasPeer-running stream_id m cs h = h.running

module _ (R : Rtc) (stream_id : String) where
  install-HasPeer :
      (need_dc : Bool) (pc : ℕ)
      → Keeps (HasPeer stream_id) (do
        when need_dc (setup_data_channel pc)
        emit (pc_on_track pc stream_id)
        emit (pc_on_local_candidate pc stream_id)
        emit (pc_on_local_description pc stream_id)
        emit (pc_on_ice_state_change pc)
        pure pc)
  unfolding setup_data_channel
  install-HasPeer need_dc pc = search has_peer_rules depth 20

  create_peer-HasPeer :
      (need_dc : Bool)
      → Ensures IsRunning (create_peer R stream_id need_dc) (λ _. HasPeer stream_id) IsRunning
  unfolding create_peer
  create_peer-HasPeer need_dc = Ensures-bind (Ensures-of_Keeps (search running_rules)) (λ pc.
      Ensures-bind (Ensures-of_Keeps (search running_rules)) (λ _.
        Ensures-bind (Ensures-modify _ (add_peer-HasPeer stream_id pc)) (λ _.
          Ensures-weaken (Ensures-of_Keeps (install-HasPeer need_dc pc)) (λ s cs h. h)
            (λ _ s cs h. h) (HasPeer-running stream_id))))

  peer_or_new-HasPeer :
      (need_dc : Bool) (existing : Option ℕ)
      → Ensures
          (λ m cs. IsRunning m cs × (existing ≡ lookup stream_id m.pcs))
          (peer_or_new R stream_id need_dc existing)
          (λ _. HasPeer stream_id)
          IsRunning
  unfolding peer_or_new
  peer_or_new-HasPeer need_dc none =
      Ensures-weaken (create_peer-HasPeer need_dc) (λ s cs h. h.0) (λ _ s cs h. h) (λ s cs h. h)
  peer_or_new-HasPeer need_dc (some pc) =
      Ensures-weaken (Ensures-pure pc) (λ s cs h. h)
        (λ _ s cs h. record { running = h.0.0; has_peer = rw (sym h.0.1) }) (λ s cs h. h)

  create_peer_if_not_exist-HasPeer :
      (need_dc : Bool)
      → Ensures IsRunning
          (create_peer_if_not_exist R stream_id need_dc)
          (λ _. HasPeer stream_id)
          IsRunning
  unfolding create_peer_if_not_exist
  create_peer_if_not_exist-HasPeer need_dc =
      Ensures-bind (Ensures-gets _) (λ existing. peer_or_new-HasPeer need_dc existing)

  setup_local_tracks-HasPeer : (pc : ℕ) → Keeps (HasPeer stream_id) (setup_local_tracks R pc)
  unfolding setup_local_tracks
  setup_local_tracks-HasPeer pc = search has_peer_rules depth 20

  create_local_channel-HasPeer :
      (pc : ℕ) → Keeps (HasPeer stream_id) (create_local_channel R pc stream_id)
  unfolding create_local_channel
  create_local_channel-HasPeer pc = search has_peer_rules depth 20

  publish_rest-HasPeer :
      (pc : ℕ)
      → Keeps (HasPeer stream_id) (do
        modify (λ m. record m {
          publish_stream_id = stream_id;
          is_publisher = insert stream_id true m.is_publisher;
        })
        player ← gets (λ m. m.is_only_player)
        when (not player) (setup_local_tracks R pc)
        has_channel ← gets (λ m. contains stream_id m.local_data_channels)
        when (not has_channel) (create_local_channel R pc stream_id))
  publish_rest-HasPeer pc =
      search (has_peer_rules, setup_local_tracks-HasPeer, create_local_channel-HasPeer) depth 20

  new_publish_peer-IsRunning : Keeps IsRunning (new_publish_peer R stream_id)
  unfolding new_publish_peer
  new_publish_peer-IsRunning = Keeps-of_Ensures (
      Ensures-bind (create_peer_if_not_exist-HasPeer true) (λ pc.
        Ensures-weaken (Ensures-of_Keeps (publish_rest-HasPeer pc)) (λ s cs h. h)
          (λ _. HasPeer-running stream_id) (HasPeer-running stream_id)))

  pub setup_publish_peer-IsRunning : Keeps IsRunning (setup_publish_peer R stream_id)
  unfolding setup_publish_peer
  setup_publish_peer-IsRunning = search (running_rules, new_publish_peer-IsRunning)
