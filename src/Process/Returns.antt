-- ===== src/Process/Returns.antt =====
-- The end of the process where the libraries do not throw.
use mathlib.Core.Path.{refl}
use ant_media_server_confere.Base.{
  ℕ, String, ◌≡◌, ◌≤◌, Bool, true, false, Option, none, some, List, [], ◌∷◌, arith,
}
use ant_media_server_confere.Base.Exec.{Outcome, done, thrown, has_thrown}
use ant_media_server_confere.Base.Exec.Ensures.{Post}
use ant_media_server_confere.Base.Exec.Returns.{
  Returns, Returns-pure, Returns-modify, Returns-if, Returns-bind, Returns-with_part, embed-returns,
}
use ant_media_server_confere.Platform.{JsonLib, Rtc, Call}
use ant_media_server_confere.Gst.State.{Target}
use ant_media_server_confere.Manager.State.{Method}
use ant_media_server_confere.Manager.Returns.{
  Written, stop_2way_communication-Returns, send_chat_message-Returns,
}
use ant_media_server_confere.Api.Instance.{
  with_instance, webrtc_send_chat_message, webrtc_stop_2way_communication,
}
use ant_media_server_confere.Console.Input.{take_line, is_quit}
use ant_media_server_confere.Process.Threads.{
  MainAt, waiting, joining, stopping, returned, ConsoleAt, testing, polling, draining, ended,
  Process, on_api, main_goes, console_goes, wait, join_console, test, read_input, on_console_line,
  give_line, take_round, stop_main, main_at_turn, main_turn, console_at_turn, console_turn,
}
use ant_media_server_confere.Process.Steps.{Run}
use ant_media_server_confere.Process.Ends.Facts.{turns_left}
use ant_media_server_confere.Process.Ends.Rounds.{
  Move, main_moves, console_moves, AllFit, rounds, move, play,
}
use ant_media_server_confere.Process.Exit.{Exited, play-Exited}

-- In these turns the libraries throw nothing.
abbrev Quiet : Rtc → Type 0
Quiet R = (cs : List Call) → R.throws cs ≡ false

abbrev pub AllQuiet : List Move → Type 0
AllQuiet [] = Unit {0}
AllQuiet (main_moves R ∷ moves) = Quiet R × AllQuiet moves
AllQuiet (console_moves R input ∷ moves) = Quiet R × AllQuiet moves

on_instance-Returns : (x : Method) → Returns x → Returns (on_api (with_instance x))
unfolding on_api with_instance
on_instance-Returns x h = record {
  at = λ p cs.
      embed-returns (λ o. record p { manager = o }) (with_instance x p.manager cs)
        ((Returns-with_part tt (λ o. o) (λ o m. some m) x h).at p.manager cs);
}

main_goes-Returns : (at : MainAt) → Returns (main_goes at)
unfolding main_goes
main_goes-Returns at = Returns-modify _

console_goes-Returns : (at : ConsoleAt) → Returns (console_goes at)
unfolding console_goes
console_goes-Returns at = Returns-modify _

module _ (J : JsonLib) (R : Rtc) (text_of : List ℕ → String) (quiet : Quiet R) where
  main_at_turn-Returns : (at : MainAt) (p : Process) → Returns (main_at_turn J R text_of at p)
  unfolding main_at_turn wait join_console stop_main webrtc_stop_2way_communication
  main_at_turn-Returns waiting p = go p.running
    where
      go : (b : Bool) → Returns (wait b)
      go true = Returns-pure tt
      go false = main_goes-Returns joining
  main_at_turn-Returns joining p = go p.console_at
    where
      go : (c : ConsoleAt) → Returns (join_console c)
      go ended = main_goes-Returns stopping
      go testing = Returns-pure tt
      go polling = Returns-pure tt
      go draining = Returns-pure tt
  main_at_turn-Returns stopping p =
      Returns-bind _ _ (on_instance-Returns _ (stop_2way_communication-Returns J R quiet))
        (λ _. main_goes-Returns (returned _))
  main_at_turn-Returns (returned code) p = Returns-pure tt

  module _ (written : Written J) where
    take_round-Returns : (o : Option (List ℕ × List ℕ)) → Returns (take_round J R text_of o)
    unfolding take_round give_line on_console_line webrtc_send_chat_message
    take_round-Returns none = console_goes-Returns testing
    take_round-Returns (some ([], rest)) =
        Returns-bind _ _ (Returns-modify _) (λ _. Returns-pure tt)
    take_round-Returns (some (c ∷ line, rest)) = Returns-bind _ _ (Returns-modify _) (λ _.
        Returns-if (is_quit (c ∷ line)) _ _ (Returns-modify _)
          (on_instance-Returns _ (send_chat_message-Returns J R quiet written _)))

    console_at_turn-Returns :
        (at : ConsoleAt) (input : Option (List ℕ)) (p : Process)
        → Returns (console_at_turn J R text_of at input p)
    unfolding console_at_turn test read_input
    console_at_turn-Returns testing input p = go p.running
      where
        go : (b : Bool) → Returns (test b)
        go true = console_goes-Returns polling
        go false = console_goes-Returns ended
    console_at_turn-Returns polling none p = console_goes-Returns testing
    console_at_turn-Returns polling (some chunk) p = Returns-modify _
    console_at_turn-Returns draining input p = take_round-Returns (take_line p.buffer)
    console_at_turn-Returns ended input p = Returns-pure tt

module _ (J : JsonLib) (text_of : List ℕ → String) (written : Written J) where
  play-Returns : (moves : List Move) → AllQuiet moves → Returns (play J text_of moves)
  unfolding play move main_turn console_turn
  play-Returns [] quiet = Returns-pure tt
  play-Returns (main_moves R ∷ moves) quiet =
      Returns-bind (main_turn J R text_of) _
        (record { at = λ p cs. (main_at_turn-Returns J R text_of quiet.0 p.main_at p).at p cs })
        (λ _. play-Returns moves quiet.1)
  play-Returns (console_moves R input ∷ moves) quiet =
      Returns-bind (console_turn J R text_of input) _
        (record {
          at = λ p cs.
              (console_at_turn-Returns J R text_of quiet.0 written p.console_at input p).at p cs;
        })
        (λ _. play-Returns moves quiet.1)

  at_end :
      (o : Outcome Process Call (Unit {0}))
      → has_thrown o ≡ false
      → Post (λ _. Exited) (λ _ _. Unit {0}) o
      → (q : Process) × (ds : List Call) × (o ≡ done tt q ds) × Exited q ds
  at_end (done a q ds) e h = (q, ds, refl, h)
  at_end (thrown q ds) e h = absurd (ground (arith, e))

  -- In every run of the process, once g_appRunning is false, where the libraries throw nothing from
  -- then on and every chat message can be written: whatever the order of the turns that follow and
  -- whatever is typed, in reads of less than 512 bytes, if both threads go on for as many rounds as
  -- they have turns left, each with at least one turn in a round, then no exception leaves a thread,
  -- `main` has returned 0, the console thread has ended and the manager holds nothing.
  pub play-Exits :
      {target : Target} {p : Process} {cs : List Call} (moves : List Move)
      → Run J target text_of p cs
      → p.running ≡ false
      → AllFit moves
      → AllQuiet moves
      → turns_left p ≤ rounds moves
      → (q : Process) × (ds : List Call) × (play J text_of moves p cs ≡ done tt q ds) × Exited q ds
  play-Exits {target} {p} {cs} moves r over fit quiet e =
      at_end (play J text_of moves p cs) ((play-Returns moves quiet).at p cs)
        (play-Exited J target text_of moves r over fit e)
