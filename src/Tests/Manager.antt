-- ===== src/Tests/Manager.antt =====
-- Runs of WebRTCManager.
use mathlib.Core.Path.{refl}
use ant_media_server_confere.Base.{
  ◌≡◌, true, false, none, some, List, [], ◌∷◌, ◌==◌, is_empty, if◌then◌else◌, string_dec, arith,
}
use ant_media_server_confere.Base.Dict.{Dict, lookup, insert, erase, get_or}
use ant_media_server_confere.Base.Exec.{
  Outcome, done, state, calls, gets, observe, emit, call, ◌>>=◌,
}
use ant_media_server_confere.Signaling.Link.{connect}
use ant_media_server_confere.Gst.State as GstState
use ant_media_server_confere.Gst.Player.{start_audio_player}
use ant_media_server_confere.Base.Exec.Ensures.{Post}
use ant_media_server_confere.Platform.{JsonLib, Call, Candidate, answer, pc_set_remote_description}
use ant_media_server_confere.Gst.State.{x86}
use ant_media_server_confere.Gst.Pipelines.{start_video, start_audio}
use ant_media_server_confere.Manager.State.{Manager, create, set_signaling_server_url}
use ant_media_server_confere.Manager.Peers.{setup_publish_peer, on_track_message}
use ant_media_server_confere.Manager.Sdp.{handle_remote_sdp}
use ant_media_server_confere.Manager.Events.{
  on_subtrack_removed, on_subtrack_added, on_play_finished,
}
use ant_media_server_confere.Manager.Lifecycle.{start_2way_communication, stop_2way_communication}
use ant_media_server_confere.Manager.Steps.{
  set_url, start, ws_opened, serve, react, request, callback, here, next,
}
use ant_media_server_confere.Manager.Running.Facts.{IsRunning}
use ant_media_server_confere.Manager.Idle.Facts.{IsIdle, IsConsistent}
use ant_media_server_confere.Manager.Idle.Start.{
  Started, start_2way_communication-Started, stop_2way_communication-IsIdle,
}
use ant_media_server_confere.Manager.Invariant.{create-IsIdle, Reach-IsConsistent}
use ant_media_server_confere.Manager.Candidates.{handed, created, handle_remote_sdp_hands_over}
use ant_media_server_confere.Manager.Plays.{
  wants, ask_track, on_subtrack_added-wants, on_subtrack_added-notices, on_subtrack_removed-wants,
  notices,
}
use ant_media_server_confere.Manager.Removal.{ClosesQuietly, forget, on_play_finished-forget}
use ant_media_server_confere.Manager.Audio.{on_track_message_ignores_talking}
use ant_media_server_confere.Tests.Platform.{toy, calm}

abbrev json : JsonLib
json = toy []

-- A manager with a server to connect to, and what `start` makes of it.
abbrev with_url : Outcome Manager Call (Unit {0})
with_url = serve json x86 calm (set_url "ws://server") create []

abbrev after_start : Outcome Manager Call (Unit {0})
after_start = serve json x86 calm (start false) (state with_url) (calls with_url)

abbrev after_open : Outcome Manager Call (Unit {0})
after_open = react json x86 calm ws_opened (state after_start) (calls after_start)

start_runs : (state after_start).is_communicating ≡ true
unfolding serve start_2way_communication ◌>>=◌ gets set_signaling_server_url create string_dec
    start_video GstState.create observe emit start_audio start_audio_player setup_publish_peer
    lookup call connect
start_runs = refl

Reach-IsConsistent_example : IsConsistent (state after_open) (calls after_open)
Reach-IsConsistent_example = Reach-IsConsistent json x86 (
    next
      (next (next here (request calm (set_url "ws://server") refl refl))
        (request calm (start false) refl refl))
      (callback calm ws_opened start_runs refl refl))

start_2way_communication-Started_example :
    Post (Started json calm) IsRunning (start_2way_communication json calm x86 false create [])
start_2way_communication-Started_example =
    start_2way_communication-Started json calm x86 false create [] create-IsIdle

-- A running manager with one peer connection and its channel.
abbrev pub running : Manager
running = record {
  signaling_server_url = "ws://server";
  room_id = "room1";
  publish_stream_id = "me";
  is_only_player = false;
  is_communicating = true;
  gst = none;
  signaling = none;
  pcs = ("me", 3) ∷ [];
  is_publisher = ("me", true) ∷ [];
  send_play = [];
  played = [];
  remote_tracks = [];
  pending_candidates = [];
  mid_type_map = [];
  local_data_channels = ("me", 5) ∷ [];
  remote_data_channels = [];
  is_stream_talking = [];
}

running-IsRunning : IsRunning running []
unfolding lookup string_dec
running-IsRunning = record {
  communicating = refl;
  channel_has_peer = λ k e. ground arith;
  peer_has_role = λ k e. ground arith;
}

stop_2way_communication-IsIdle_example :
    Post (λ _. IsIdle) IsRunning (stop_2way_communication json calm running [])
stop_2way_communication-IsIdle_example =
    stop_2way_communication-IsIdle json calm running [] running-IsRunning

abbrev early : Candidate
early = record { candidate = "candidate:1"; mid = "0" }

abbrev late : Candidate
late = record { candidate = "candidate:2"; mid = "1" }

no_peer : lookup "track" running.pcs ≡ none
unfolding lookup string_dec
no_peer = refl

-- The same manager after both candidates.
abbrev waiting : Manager
waiting = record running { pending_candidates = ("track", early ∷ late ∷ []) ∷ [] }

two_wait : lookup "track" waiting.pending_candidates ≡ some (early ∷ late ∷ [])
unfolding lookup string_dec
two_wait = refl

handle_remote_sdp_hands_over_example :
    handle_remote_sdp json calm "track" "answer" "v=0" waiting []
    ≡ done tt
        (record waiting {
          pcs = insert "track" 0 waiting.pcs;
          is_publisher = insert "track" false waiting.is_publisher;
          pending_candidates = erase "track" waiting.pending_candidates;
        })
        (handed 0 (early ∷ late ∷ []) (
          pc_set_remote_description 0 answer "v=0"
          ∷ created 0 "track" ("track" == waiting.room_id) []))
handle_remote_sdp_hands_over_example =
    handle_remote_sdp_hands_over json calm (λ ds. refl) "track" "v=0" (early ∷ late ∷ []) waiting []
      no_peer two_wait

on_subtrack_added-wants_example : on_subtrack_added json calm "track" running [] ≡ (
    if wants json calm "track" running []
    then ask_track json calm "track" running []
    else done tt running [])
on_subtrack_added-wants_example = on_subtrack_added-wants json calm "track" running []

track_wanted : wants json calm "track" running [] ≡ true
unfolding lookup string_dec
track_wanted = refl

-- Two more notices, the first of them with the peer connection reported as closed.
on_subtrack_added-notices_example :
    let first = on_subtrack_added json calm "track" running [] in
    (get_or false "track" (state first).send_play ≡ true)
    × (notices json
          (record calm { pc_closed = λ cs pc. true } ∷ calm ∷ [])
          "track"
          (state first)
          (calls first)
        ≡ done tt (state first) (calls first))
on_subtrack_added-notices_example =
    on_subtrack_added-notices json calm (record calm { pc_closed = λ cs pc. true } ∷ calm ∷ [])
      "track" running [] track_wanted

track_named : is_empty "track" ≡ false
unfolding string_dec
track_named = refl

track_foreign : ("track" == running.publish_stream_id) ≡ false
unfolding string_dec
track_foreign = refl

track_absent : lookup "track" running.pcs ≡ none
unfolding lookup string_dec
track_absent = refl

on_subtrack_removed-wants_example :
    let removed = on_subtrack_removed json calm "track" running [] in
    on_subtrack_added json calm "track" (state removed) (calls removed)
    ≡ ask_track json calm "track" (state removed) (calls removed)
on_subtrack_removed-wants_example =
    on_subtrack_removed-wants json calm "track" running [] track_named track_foreign track_absent

calm-ClosesQuietly : ClosesQuietly calm
calm-ClosesQuietly = record { quiet_pc = λ pc cs. refl; quiet_dc = λ dc cs. refl }

me_named : is_empty "me" ≡ false
unfolding string_dec
me_named = refl

me_other : ("me" == running.room_id) ≡ false
unfolding string_dec
me_other = refl

on_play_finished-forget_example :
    (ds : List Call) × (on_play_finished json calm "me" running []
      ≡ done tt (forget "me" running) ds)
on_play_finished-forget_example =
    on_play_finished-forget json calm calm-ClosesQuietly "me" running [] me_named me_other

on_track_message_ignores_talking_example :
    calls (
      on_track_message calm "audio" "track"
        (1 ∷ 2 ∷ [])
        (record running { is_stream_talking = ("track", false) ∷ [] })
        [])
    ≡ calls (on_track_message calm "audio" "track" (1 ∷ 2 ∷ []) running [])
on_track_message_ignores_talking_example =
    on_track_message_ignores_talking json calm "audio" "track" (1 ∷ 2 ∷ []) (("track", false) ∷ [])
      running []
