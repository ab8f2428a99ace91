-- ===== src/Process/Begins.antt =====
-- What `main` has when it starts the console thread, or returns before.
use mathlib.Core.Path.{refl}
use ant_media_server_confere.Base.{
  String, ◌≡◌, Bool, true, false, Option, none, some, List, [], ◌==◌, if◌then◌else◌,
}
use ant_media_server_confere.Base.Exec.{
  Outcome, done, thrown, pure, modify, with_part, embed, bind_done, ◌>>=◌, ◌>>◌,
}
use ant_media_server_confere.Base.Exec.Ensures.{Post}
use ant_media_server_confere.Platform.{JsonLib, Rtc, Call}
use ant_media_server_confere.Gst.State.{Target}
use ant_media_server_confere.Manager.State.{Manager, create}
use ant_media_server_confere.Manager.Running.Facts.{IsRunning}
use ant_media_server_confere.Manager.Idle.Facts.{IsIdle}
use ant_media_server_confere.Manager.Idle.Start.{Started, start_2way_communication-Started}
use ant_media_server_confere.Api.Instance.{
  webrtc_init, ensure, webrtc_start_2way_communication, set_up, stream_name, server_url, begin,
}
use ant_media_server_confere.Api.Settings.{set_up-create}

-- There is a manager, and it has the property.
abbrev pub Held : (Manager → List Call → Type 0) → Option Manager → List Call → Type 0
Held P none cs = ⊥
Held P (some m) cs = P m cs

-- No manager and no call, or an idle manager.
abbrev pub NothingHeld : Option Manager → List Call → Type 0
NothingHeld none cs = cs ≡ []
NothingHeld (some m) cs = IsIdle m cs

-- True: `main` goes on to the console thread. False: it returns -1.
abbrev pub Begun : Bool → Option Manager → List Call → Type 0
Begun true = Held IsRunning
Begun false = NothingHeld

abbrev Any : Option Manager → List Call → Type 0
Any o cs = Unit {0}

abbrev configured : String → String → Manager
configured url name = record create {
  signaling_server_url = url;
  room_id = "room1";
  publish_stream_id = name;
}

configured-IsIdle : (url name : String) → IsIdle (configured url name) []
unfolding create
configured-IsIdle url name = record {
  not_communicating = refl;
  signaling_gone = refl;
  nothing = record {
    gst_gone = refl;
    pcs_gone = refl;
    is_publisher_gone = refl;
    send_play_gone = refl;
    played_gone = refl;
    remote_tracks_gone = refl;
    pending_candidates_gone = refl;
    mid_type_map_gone = refl;
    local_data_channels_gone = refl;
    remote_data_channels_gone = refl;
    is_stream_talking_gone = refl;
  };
}

module _ (J : JsonLib) (R : Rtc) (target : Target) where
  embed-Begun :
      (o : Outcome Manager Call Bool)
      → Post (Started J R) IsRunning o
      → Post Begun (Held IsRunning) (embed some o)
  embed-Begun (done true m cs) h = h
  embed-Begun (done false m cs) h = h
  embed-Begun (thrown m cs) h = h

  start-Begun :
      (is_player : Bool) (m : Manager) (cs : List Call)
      → IsIdle m cs
      → Post Begun
          (Held IsRunning)
          (webrtc_start_2way_communication J R target is_player (some m) cs)
  unfolding webrtc_start_2way_communication webrtc_init modify ensure with_part ◌>>=◌
  start-Begun is_player m cs idle =
      embed-Begun _ (start_2way_communication-Started J R target is_player m cs idle)

  -- Up to the console thread, with no manager at first: `main` goes on with a manager that is
  -- communicating and has its maps in order, or it returns -1 with no manager and no call made, or
  -- with a manager that holds nothing. If the libraries throw out of it, the manager is
  -- communicating, with its maps in order.
  pub begin-Begun :
      (environment : Option String) (is_player : Bool) (number : String)
      → Post Begun (Held IsRunning) (begin J R target environment is_player number none [])
  unfolding begin pure
  begin-Begun environment is_player number = go (server_url environment == "AMS_WEBSOCKET_URL")
    where
      go :
          (unset : Bool)
          → Post Begun (Held IsRunning) (
              (if unset
                  then pure false
                  else (set_up (server_url environment) (stream_name target is_player number)
                      >> webrtc_start_2way_communication J R target is_player))
                none [])
      go true = refl
      go false =
          rw
            (bind_done (set_up (server_url environment) (stream_name target is_player number))
              (λ _. webrtc_start_2way_communication J R target is_player) none []
              (set_up-create (server_url environment) (stream_name target is_player number) []))
            (start-Begun is_player _ [] (configured-IsIdle _ _))
