-- ===== src/Tests/Process.antt =====
-- A run of the process in which a signal comes before the console thread is there.
use mathlib.Core.Path.{refl}
use ant_media_server_confere.Base.{
  ℕ, String, string_dec, ◌≡◌, ◌⊎◌, arith, Bool, true, false, Option, none, some, List, [], ◌∷◌,
  ◌++◌,
}
use ant_media_server_confere.Base.Exec.{
  Outcome, done, state, calls, gets, try_pure, observe, emit, call, ◌>>=◌,
}
use ant_media_server_confere.Base.Exec.Ensures.{Post}
use ant_media_server_confere.Base.Dict.{lookup, insert}
use ant_media_server_confere.Platform.{JsonLib, Call}
use ant_media_server_confere.Platform.Int.{pos, negsuc}
use ant_media_server_confere.Gst.State.{x86}
use ant_media_server_confere.Gst.State as GstState
use ant_media_server_confere.Gst.Player.{start_audio_player, stop_audio_player, destroy}
use ant_media_server_confere.Manager.State.{
  Manager, create, set_signaling_server_url, set_room_id, set_stream_id,
}
use ant_media_server_confere.Manager.Peers.{setup_publish_peer}
use ant_media_server_confere.Manager.Lifecycle.{
  connect, start_2way_communication, stop_2way_communication, destroy_manager,
}
use ant_media_server_confere.Signaling.Link
use ant_media_server_confere.Command.Outgoing
use ant_media_server_confere.Api.Instance.{with_instance, begin, webrtc_stop_2way_communication}
use ant_media_server_confere.Manager.Running.Facts.{IsRunning}
use ant_media_server_confere.Process.Threads.{
  Process, main_goes, console_goes, test, testing, polling, ended, joining, stopping, returned,
}
use ant_media_server_confere.Process.Begins.{Held, Begun, begin-Begun}
use ant_media_server_confere.Process.Steps.{threads_start, Run, begun, goes_on, turn}
use ant_media_server_confere.Process.Ends.Rounds.{
  Move, main_moves, console_moves, rounds, move, play,
}
use ant_media_server_confere.Process.Order.Facts.{InOrder}
use ant_media_server_confere.Process.Order.Runs.{Run-InOrder}
use ant_media_server_confere.Process.Exit.{Exited, finishes, destroy_manager-after}
use ant_media_server_confere.Console.Input.{c_string, feed}
use ant_media_server_confere.Console.Lines.{split}
use ant_media_server_confere.Process.Reads.Facts.{program_of, seen, Leaves, say_all, read_turns}
use ant_media_server_confere.Process.Reads.Loop.{read_turns-say_all}
use ant_media_server_confere.Manager.Returns.{Written}
use ant_media_server_confere.Process.Returns.{AllQuiet, play-Exits}
use ant_media_server_confere.Tests.Platform.{toy, calm}

-- Every message can be written.
abbrev fluent : JsonLib
fluent = record (toy []) { dump = λ j. some "text" }

abbrev player : Outcome (Option Manager) Call Bool
player = begin fluent calm x86 (some "ws://server") true "7" none []

player_begins : player ≡ done true (state player) (calls player)
unfolding begin ◌>>=◌ gets create string_dec set_signaling_server_url set_room_id set_stream_id
    start_2way_communication GstState.create start_audio_player observe emit setup_publish_peer
    lookup call connect Link.connect
player_begins = refl

abbrev bytes_as_text : List ℕ → String
bytes_as_text line = "text"

abbrev interrupted : Process
interrupted = threads_start false (state player)

interrupted-Run : Run fluent x86 bytes_as_text interrupted (calls player)
interrupted-Run = begun calm (some "ws://server") true "7" false player_begins

begin-Begun_example :
    Post Begun (Held IsRunning) (begin fluent calm x86 (some "ws://server") true "7" none [])
begin-Begun_example = begin-Begun fluent calm x86 (some "ws://server") true "7"

-- Four rounds, with the console thread first.
abbrev four_rounds : List Move
four_rounds =
    console_moves calm none
    ∷ main_moves calm
    ∷ console_moves calm none
    ∷ main_moves calm
    ∷ console_moves calm none
    ∷ main_moves calm
    ∷ console_moves calm none
    ∷ main_moves calm
    ∷ []

four_rounds_count : rounds four_rounds ≡ 4
unfolding rounds
four_rounds_count = refl

fluent-Written : Written fluent
fluent-Written sender text date = refl

no_input-AllQuiet : AllQuiet four_rounds
no_input-AllQuiet =
    let q : (cs : List Call) → calm.throws cs ≡ false = λ cs. refl in
    (q, (q, (q, (q, (q, (q, (q, (q, tt))))))))

play-Exits_example :
    (q : Process) × (ds : List Call) × (play fluent bytes_as_text four_rounds interrupted
        (calls player)
      ≡ done tt q ds)
    × Exited q ds
play-Exits_example =
    play-Exits fluent bytes_as_text fluent-Written four_rounds interrupted-Run refl
      (tt, (tt, (tt, (tt, (tt, (tt, (tt, (tt, tt)))))))) no_input-AllQuiet
      (omega (arith, four_rounds_count))

-- The turns of this run, one by one.
abbrev turned : Move → Process → List Call → Outcome Process Call (Unit {0})
turned m p cs = move fluent bytes_as_text m p cs

abbrev after_test : Process
after_test = record interrupted { console_at = ended }

abbrev after_wait : Process
after_wait = record after_test { main_at = joining }

abbrev after_join : Process
after_join = record after_wait { main_at = stopping }

test_turn :
    turned (console_moves calm none) interrupted (calls player) ≡ done tt after_test (calls player)
unfolding move test console_goes
test_turn = refl

wait_turn : turned (main_moves calm) after_test (calls player) ≡ done tt after_wait (calls player)
unfolding move main_goes
wait_turn = refl

join_turn : turned (main_moves calm) after_wait (calls player) ≡ done tt after_join (calls player)
unfolding move main_goes
join_turn = refl

abbrev stopped : Outcome Process Call (Unit {0})
stopped = turned (main_moves calm) after_join (calls player)

stop_turn : stopped ≡ done tt (state stopped) (calls stopped)
unfolding move ◌>>=◌ begin main_goes string_dec set_signaling_server_url set_room_id set_stream_id
    start_2way_communication gets create start_audio_player GstState.create observe emit
    setup_publish_peer lookup call connect Link.connect webrtc_stop_2way_communication
    stop_2way_communication insert Link.send_stop_publish Outgoing.send_stop_publish
    Outgoing.send_json try_pure stop_audio_player destroy Link.disconnect Link.shutdown_client
    Link.send_stop_play_room Outgoing.send_stop_play_room Link.send_leave_room
    Outgoing.send_leave_room
stop_turn = refl

stopped-Run : Run fluent x86 bytes_as_text (state stopped) (calls stopped)
stopped-Run =
    goes_on
      (goes_on
        (goes_on (goes_on interrupted-Run (turn (console_moves calm none) tt test_turn))
          (turn (main_moves calm) tt wait_turn))
        (turn (main_moves calm) tt join_turn))
      (turn (main_moves calm) tt stop_turn)

Run-InOrder_example : InOrder (state stopped) (calls stopped)
Run-InOrder_example = Run-InOrder fluent x86 bytes_as_text stopped-Run

stopped_returned : (state stopped).main_at ≡ returned (pos 0)
unfolding move ◌>>=◌ begin main_goes string_dec set_signaling_server_url set_room_id set_stream_id
    start_2way_communication gets create start_audio_player GstState.create observe emit
    setup_publish_peer lookup call connect Link.connect webrtc_stop_2way_communication
    stop_2way_communication insert Link.send_stop_publish Outgoing.send_stop_publish
    Outgoing.send_json try_pure stop_audio_player destroy Link.disconnect Link.shutdown_client
    Link.send_stop_play_room Outgoing.send_stop_play_room Link.send_leave_room
    Outgoing.send_leave_room
stopped_returned = refl

destroy_manager-after_example :
    ((pos 0 ≡ negsuc 0) ⊎ (pos 0 ≡ pos 0))
    × (with_instance (destroy_manager fluent calm) (state stopped).manager (calls stopped)
        ≡ done tt (state stopped).manager (calls stopped))
destroy_manager-after_example =
    destroy_manager-after fluent x86 calm (finishes (state stopped) stopped-Run stopped_returned)

-- "hi", an empty line and "quit" in one read.
abbrev typed : List ℕ
typed = b'h' ∷ b'i' ∷ 10 ∷ 10 ∷ b'q' ∷ b'u' ∷ b'i' ∷ b't' ∷ 10 ∷ []

abbrev reading : Process
reading = record interrupted { running = true; console_at = polling }

read_turns-say_all_example :
    let (lines, rest) = feed [] typed in
    let o =
      read_turns fluent calm bytes_as_text typed
        (split ([] ++ c_string typed)).0
        reading
        (calls player) in
    (seen o ≡ say_all fluent calm bytes_as_text lines (program_of reading) (calls player))
    × Post (λ _ q _. Leaves rest testing q) (λ _ _. Unit {0}) o
read_turns-say_all_example =
    read_turns-say_all fluent calm bytes_as_text typed reading (calls player) refl
