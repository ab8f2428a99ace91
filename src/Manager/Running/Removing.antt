-- ===== src/Manager/Running/Removing.antt =====
-- The method that removes peer connections keeps the invariant.
use ant_media_server_confere.Base.{
  ℕ, String, ◌≡◌, sym, Bool, false, Option, none, some, List, arith,
}
use ant_media_server_confere.Base.Dict.{contains, lookup, erase, lookup-erase}
use ant_media_server_confere.Base.Exec.{gets, modify, call, ◌>>=◌, ◌>>◌}
use ant_media_server_confere.Base.Exec.Keeps.{Keeps, Keeps-call, Keeps-modify, keeps_rules}
use ant_media_server_confere.Base.Exec.Ensures.{
  Ensures, Ensures-of_Keeps, Keeps-of_Ensures, Ensures-bind, Ensures-pure, Ensures-gets,
  Ensures-modify, Ensures-weaken,
}
use ant_media_server_confere.Platform.{Rtc, Call}
use ant_media_server_confere.Manager.State.{Manager}
use ant_media_server_confere.Manager.Peers.{
  close_if_open, drop_local_channel, drop_remote_channel, drop_peer, remove_peer_if_not_exist,
}
use ant_media_server_confere.Manager.Running.Facts.{IsRunning, running_rules}

-- The invariant, and no local data channel for the stream.
record NoChannel (stream_id : String) (m : Manager) (cs : List Call) : Type 0 where
  running : IsRunning m cs
  no_channel : contains stream_id m.local_data_channels ≡ false

module _ (stream_id : String) where
  call-NoChannel :
      (throws : List Call → Bool) (c : Call) → Keeps (NoChannel stream_id) (call throws c)
  call-NoChannel throws c = Keeps-call throws c (λ s cs h. record {
    running = record {
      communicating = h.running.communicating;
      channel_has_peer = h.running.channel_has_peer;
      peer_has_role = h.running.peer_has_role;
    };
    no_channel = h.no_channel;
  })

  drop_channel-NoChannel :
      (m : Manager) (cs : List Call)
      → IsRunning m cs
      → NoChannel stream_id
          (record m { local_data_channels = erase stream_id m.local_data_channels })
          cs
  drop_channel-NoChannel m cs h = record {
    running = record {
      communicating = h.communicating;
      channel_has_peer = λ k e.
          ground (arith, h.channel_has_peer k, lookup-erase k stream_id m.local_data_channels);
      peer_has_role = h.peer_has_role;
    };
    no_channel = ground (arith, lookup-erase stream_id stream_id m.local_data_channels);
  }

  drop_remote-NoChannel :
      Keeps
        (NoChannel stream_id)
        (modify (λ m. record m { remote_data_channels = erase stream_id m.remote_data_channels }))
  drop_remote-NoChannel = Keeps-modify _ λ s cs h. record {
    running = record {
      communicating = h.running.communicating;
      channel_has_peer = h.running.channel_has_peer;
      peer_has_role = h.running.peer_has_role;
    };
    no_channel = h.no_channel;
  }

  drop_pc-NoChannel :
      Keeps (NoChannel stream_id) (modify (λ m. record m { pcs = erase stream_id m.pcs }))
  drop_pc-NoChannel = Keeps-modify _ λ s cs h. record {
    running = record {
      communicating = h.running.communicating;
      channel_has_peer = λ k e.
          ground
            (arith, h.running.channel_has_peer k, h.no_channel, lookup-erase k stream_id s.pcs);
      peer_has_role =
          λ k e. ground (arith, h.running.peer_has_role k, lookup-erase k stream_id s.pcs);
    };
    no_channel = h.no_channel;
  }

  forget_plays-NoChannel : Keeps (NoChannel stream_id) (
      modify (λ m. record m {
        played = erase stream_id m.played;
        send_play = erase stream_id m.send_play;
      }))
  forget_plays-NoChannel = Keeps-modify _ λ s cs h. record {
    running = record {
      communicating = h.running.communicating;
      channel_has_peer = h.running.channel_has_peer;
      peer_has_role = h.running.peer_has_role;
    };
    no_channel = h.no_channel;
  }

ruleset no_channel_rules =
    (keeps_rules, call-NoChannel, drop_remote-NoChannel, drop_pc-NoChannel, forget_plays-NoChannel)

NoChannel-running :
    (stream_id : String) (m : Manager) (cs : List Call) → NoChannel stream_id m cs → IsRunning m cs
NoChannel-running stream_id m cs h = h.running

module _ (R : Rtc) where
  close_if_open-IsRunning : (dc : ℕ) → Keeps IsRunning (close_if_open R dc)
  unfolding close_if_open
  close_if_open-IsRunning dc = search running_rules

  close_if_open-NoChannel :
      (stream_id : String) (dc : ℕ) → Keeps (NoChannel stream_id) (close_if_open R dc)
  unfolding close_if_open
  close_if_open-NoChannel stream_id dc = search no_channel_rules

module _ (R : Rtc) (stream_id : String) where
  drop_local_channel-NoChannel :
      (channel : Option ℕ)
      → Ensures
          (λ m cs. IsRunning m cs × (channel ≡ lookup stream_id m.local_data_channels))
          (drop_local_channel R stream_id channel)
          (λ _. NoChannel stream_id)
          IsRunning
  unfolding drop_local_channel
  drop_local_channel-NoChannel none =
      Ensures-weaken (Ensures-pure tt) (λ s cs h. h)
        (λ _ s cs h. record { running = h.0.0; no_channel = rw (sym h.0.1) }) (λ s cs h. h)
  drop_local_channel-NoChannel (some dc) =
      Ensures-bind
        (Ensures-weaken (Ensures-of_Keeps (close_if_open-IsRunning R dc)) (λ s cs h. h.0)
          (λ _ s cs h. h) (λ s cs h. h))
        (λ _. Ensures-modify _ (drop_channel-NoChannel stream_id))

  drop_remote_channel-NoChannel :
      (channel : Option ℕ) → Keeps (NoChannel stream_id) (drop_remote_channel R stream_id channel)
  unfolding drop_remote_channel
  drop_remote_channel-NoChannel none = search no_channel_rules
  drop_remote_channel-NoChannel (some dc) = search (no_channel_rules, close_if_open-NoChannel)

  drop_peer-NoChannel : (peer : Option ℕ) → Keeps (NoChannel stream_id) (drop_peer R stream_id peer)
  unfolding drop_peer
  drop_peer-NoChannel none = search no_channel_rules
  drop_peer-NoChannel (some pc) = search no_channel_rules

  remove_rest-NoChannel : Keeps (NoChannel stream_id) (do
    remote_channel ← gets (λ m. lookup stream_id m.remote_data_channels)
    drop_remote_channel R stream_id remote_channel
    peer ← gets (λ m. lookup stream_id m.pcs)
    drop_peer R stream_id peer
    modify (λ m. record m {
      played = erase stream_id m.played;
      send_play = erase stream_id m.send_play;
    }))
  remove_rest-NoChannel =
      search (no_channel_rules, drop_remote_channel-NoChannel, drop_peer-NoChannel) depth 20

  pub remove_peer_if_not_exist-IsRunning : Keeps IsRunning (remove_peer_if_not_exist R stream_id)
  unfolding remove_peer_if_not_exist
  remove_peer_if_not_exist-IsRunning = Keeps-of_Ensures (
      Ensures-bind (Ensures-gets _) (λ channel.
        Ensures-bind (drop_local_channel-NoChannel channel) (λ _.
          Ensures-weaken (Ensures-of_Keeps remove_rest-NoChannel) (λ s cs h. h)
            (λ _. NoChannel-running stream_id) (NoChannel-running stream_id))))
