-- ===== src/Manager/Idle/Start.antt =====
-- What Start2WayCommunication and Stop2WayCommunication leave.
use mathlib.Core.Path.{refl}
use ant_media_server_confere.Base.{
  ℕ, ◌≡◌, Bool, true, false, some, List, arith, ◌==◌, ◌||◌, if◌then◌else◌, is_empty,
}
use ant_media_server_confere.Base.Dict.{lookup-nil}
use ant_media_server_confere.Base.Exec.{done, pure, gets, ◌>>=◌}
use ant_media_server_confere.Base.Exec.Keeps.{Keeps, Keeps-bind, Keeps-with_part}
use ant_media_server_confere.Base.Exec.Ensures.{
  Ensures, Post, Ensures-of_Keeps, Ensures-bind, Ensures-pure, Ensures-gets, Ensures-modify,
  Ensures-weaken,
}
use ant_media_server_confere.Platform.{JsonLib, Rtc, Call}
use ant_media_server_confere.Signaling.State.{Signaling}
use ant_media_server_confere.Signaling.Link
use ant_media_server_confere.Gst.State.{Target}
use ant_media_server_confere.Manager.State.{Manager}
use ant_media_server_confere.Manager.Lifecycle.{
  init_webrtc_state_machine, stop_running, stop_2way_communication, connect, start_media, settle,
  start_new, start_if, start_2way_communication,
}
use ant_media_server_confere.Manager.Running.Facts.{IsRunning, running_rules, frame-IsRunning}
use ant_media_server_confere.Manager.Running.Adding.{setup_publish_peer-IsRunning}
use ant_media_server_confere.Manager.Idle.Facts.{IsIdle}
use ant_media_server_confere.Manager.Idle.Cleanup.{AllGone, cleanup_resources-AllGone}

stopped-IsIdle :
    (m : Manager) (cs : List Call)
    → AllGone m cs
    → IsIdle (record m { is_communicating = false }) cs
stopped-IsIdle m cs h = record {
  not_communicating = refl;
  signaling_gone = h.signaling_gone;
  nothing = record {
    gst_gone = h.nothing.gst_gone;
    pcs_gone = h.nothing.pcs_gone;
    is_publisher_gone = h.nothing.is_publisher_gone;
    send_play_gone = h.nothing.send_play_gone;
    played_gone = h.nothing.played_gone;
    remote_tracks_gone = h.nothing.remote_tracks_gone;
    pending_candidates_gone = h.nothing.pending_candidates_gone;
    mid_type_map_gone = h.nothing.mid_type_map_gone;
    local_data_channels_gone = h.nothing.local_data_channels_gone;
    remote_data_channels_gone = h.nothing.remote_data_channels_gone;
    is_stream_talking_gone = h.nothing.is_stream_talking_gone;
  };
}

module _ (J : JsonLib) (R : Rtc) where
  stop_ensures : Ensures IsRunning (stop_2way_communication J R) (λ _. IsIdle) IsRunning
  unfolding stop_2way_communication stop_running
  stop_ensures = Ensures-bind (Ensures-gets (λ m. m.is_communicating)) stop_case
    where
      stop_case :
          (running : Bool)
          → Ensures
              (λ m cs. IsRunning m cs × (running ≡ m.is_communicating))
              (stop_running J R running)
              (λ _. IsIdle)
              IsRunning
      stop_case false =
          Ensures-weaken (Ensures-pure tt) (λ m cs h. h)
            (λ _ m cs h. absurd (ground (arith, h.0.1, h.0.0.communicating))) (λ m cs h. h)
      stop_case true =
          Ensures-bind
            (Ensures-weaken (cleanup_resources-AllGone J R) (λ m cs h. h.0) (λ _ m cs h. h)
              (λ m cs h. h))
            (λ _. Ensures-modify _ stopped-IsIdle)

  -- `stop` of a running manager returns with nothing left behind; if the libraries throw out of it,
  -- the manager is still running, with its maps in order.
  pub stop_2way_communication-IsIdle :
      (m : Manager) (cs : List Call)
      → IsRunning m cs
      → Post (λ _. IsIdle) IsRunning (stop_2way_communication J R m cs)
  stop_2way_communication-IsIdle m cs running = stop_ensures.apply m cs running

  connect-IsRunning : Keeps IsRunning (connect J R)
  unfolding connect
  connect-IsRunning = Keeps-bind _ _ (search running_rules) (λ m.
      Keeps-with_part {T = Signaling} false (λ m. m.signaling)
        (λ m s. record m { signaling = some s })
        (Link.connect R m.signaling_server_url m.publish_stream_id)
        (λ m cs ds t u h e. record {
          communicating = h.communicating;
          channel_has_peer = h.channel_has_peer;
          peer_has_role = h.peer_has_role;
        }))

  start_media-IsRunning :
      (target : Target) (is_player : Bool) → Keeps IsRunning (start_media J R target is_player)
  unfolding start_media
  start_media-IsRunning target is_player = search (running_rules, frame-IsRunning) depth 20

  init_webrtc_state_machine-IsRunning : Keeps IsRunning (init_webrtc_state_machine J R)
  unfolding init_webrtc_state_machine
  init_webrtc_state_machine-IsRunning = search (running_rules, setup_publish_peer-IsRunning)

  -- The result says whether the manager is communicating.
  abbrev pub Started : Bool → Manager → List Call → Type 0
  Started true = IsRunning
  Started false = IsIdle

  settle-Started : (opened : Bool) → Ensures IsRunning (settle J R opened) Started IsRunning
  unfolding settle
  settle-Started true =
      Ensures-weaken (Ensures-pure true) (λ m cs h. h) (λ b m cs h. rw h.1 h.0) (λ m cs h. h)
  settle-Started false = Ensures-bind (cleanup_resources-AllGone J R) (λ _.
      Ensures-bind (Ensures-modify _ stopped-IsIdle) (λ _.
        Ensures-weaken (Ensures-pure false) (λ m cs h. h) (λ b m cs h. rw h.1 h.0) (λ m cs h. h)))

  begin-IsRunning :
      (is_player : Bool) (m : Manager) (cs : List Call)
      → IsIdle m cs
      → IsRunning (record m { is_only_player = is_player; is_communicating = true }) cs
  begin-IsRunning is_player m cs h = record {
    communicating = refl;
    channel_has_peer =
        λ k e. absurd (ground (arith, h.nothing.local_data_channels_gone, lookup-nil {V = ℕ} k));
    peer_has_role = λ k e. absurd (ground (arith, h.nothing.pcs_gone, lookup-nil {V = ℕ} k));
  }

  pub start_new-Started :
      (target : Target) (is_player : Bool)
      → Ensures IsIdle (start_new J R target is_player) Started IsRunning
  unfolding start_new
  start_new-Started target is_player =
      Ensures-bind (Ensures-modify _ (begin-IsRunning is_player)) (λ _.
        Ensures-bind (Ensures-of_Keeps (start_media-IsRunning target is_player)) (λ _.
          Ensures-bind
            (Ensures-of_Keeps (frame-IsRunning _ (λ _. refl) (λ _. refl) (λ _. refl) (λ _. refl)))
            (λ _. Ensures-bind (Ensures-of_Keeps init_webrtc_state_machine-IsRunning) (λ _.
              Ensures-bind (Ensures-of_Keeps connect-IsRunning)
                (λ opened. settle-Started opened)))))

  start_if-Started :
      (target : Target) (is_player : Bool) (m : Manager)
      → m.is_communicating ≡ false
      → Ensures IsIdle (start_if J R target is_player m) Started IsRunning
  unfolding start_if
  start_if-Started target is_player m e =
      rw e
        (if_idle (is_empty m.signaling_server_url || m.signaling_server_url == "AMS_WEBSOCKET_URL"))
    where
      if_idle :
          (invalid : Bool)
          → Ensures IsIdle
              (if invalid then pure false else start_new J R target is_player)
              Started
              IsRunning
      if_idle true =
          Ensures-weaken (Ensures-pure false) (λ m cs h. h) (λ b m cs h. rw h.1 h.0) (λ m cs h. h)
      if_idle false = start_new-Started target is_player

  start_ensures :
      (target : Target) (is_player : Bool)
      → Ensures IsIdle (start_2way_communication J R target is_player) Started IsRunning
  unfolding start_2way_communication
  start_ensures target is_player = Ensures-bind (Ensures-gets (λ m. m)) started_from
    where
      started_from :
          (m : Manager)
          → Ensures
              (λ n cs. IsIdle n cs × (m ≡ n))
              (start_if J R target is_player m)
              Started
              IsRunning
      started_from m = record {
        apply = λ n cs h.
            (start_if-Started target is_player m (rw h.1 h.0.not_communicating)).apply n cs h.0;
      }

  -- From a stopped manager, `start` returns true with the manager running, or false with nothing
  -- held; if the libraries throw out of it, the manager is left running, with its maps in order.
  pub start_2way_communication-Started :
      (target : Target) (is_player : Bool) (m : Manager) (cs : List Call)
      → IsIdle m cs
      → Post Started IsRunning (start_2way_communication J R target is_player m cs)
  start_2way_communication-Started target is_player m cs idle =
      (start_ensures target is_player).apply m cs idle

  start_again :
      (target : Target) (is_player : Bool) (m : Manager) (cs : List Call)
      → m.is_communicating ≡ true
      → start_2way_communication J R target is_player m cs ≡ done true m cs
  unfolding start_2way_communication start_if ◌>>=◌ gets
  start_again target is_player m cs e = simp e

  -- A running manager is left as it is.
  pub start_2way_communication-IsRunning :
      (target : Target) (is_player : Bool)
      → Keeps IsRunning (start_2way_communication J R target is_player)
  start_2way_communication-IsRunning target is_player = record {
    at = λ m cs h. rw (start_again target is_player m cs h.communicating) h;
  }
