-- ===== src/Process/Threads.antt =====
-- The two threads of main.cpp, a turn at a time. A turn runs up to the next point where another
-- thread may act: a test of g_appRunning, `poll`, a round of the loop over the buffer, `join`.
use ant_media_server_confere.Base.{
  ℕ, String, Bool, true, false, Option, none, some, List, [], ◌∷◌, ◌++◌, if◌then◌else◌,
}
use ant_media_server_confere.Base.Exec.{Exec, pure, modify, embed, ◌>>◌}
use ant_media_server_confere.Platform.{JsonLib, Rtc, Call}
use ant_media_server_confere.Platform.Int.{ℤ, pos}
use ant_media_server_confere.Manager.State.{Manager}
use ant_media_server_confere.Api.Instance.{
  Api, webrtc_send_chat_message, webrtc_stop_2way_communication,
}
use ant_media_server_confere.Console.Input.{c_string, take_line, is_quit}

-- Where `main` is after it has started the console thread.
pub data MainAt : Type 0 where
  waiting joining stopping : MainAt
  returned : ℤ → MainAt

-- Where the console thread is: before `while (running)`, before `poll`, before `find`, and at its end.
pub data ConsoleAt : Type 0 where
  testing polling draining ended : ConsoleAt

-- g_appRunning, g_webrtcManager, lineBuffer, and the two threads.
pub record Process : Type 0 where
  pub running : Bool
  pub manager : Option Manager
  pub buffer : List ℕ
  pub main_at : MainAt
  pub console_at : ConsoleAt

-- `thrown` stands for an exception that leaves a thread, which ends the process.
abbrev pub Turn : Type 0
Turn = Exec Process Call (Unit {0})

unfoldable pub on_api : Api (Unit {0}) → Turn
on_api m p cs = embed (λ o. record p { manager = o }) (m p.manager cs)

unfoldable pub main_goes : MainAt → Turn
unfolding modify
main_goes at = modify (λ p. record p { main_at = at })

unfoldable pub console_goes : ConsoleAt → Turn
unfolding modify
console_goes at = modify (λ p. record p { console_at = at })

-- `while (g_appRunning) sleep`.
unfoldable pub wait : Bool → Turn
unfolding main_goes pure
wait true = pure tt
wait false = main_goes joining

-- `join` returns once the thread is at its end.
unfoldable pub join_console : ConsoleAt → Turn
unfolding main_goes pure
join_console ended = main_goes stopping
join_console testing = pure tt
join_console polling = pure tt
join_console draining = pure tt

unfoldable pub test : Bool → Turn
unfolding console_goes
test true = console_goes polling
test false = console_goes ended

-- `poll` and `read`: the bytes that came, or `none` for no bytes.
unfoldable pub read_input : Option (List ℕ) → Turn
unfolding console_goes modify
read_input none = console_goes testing
read_input (some chunk) =
    modify (λ p. record p { buffer = p.buffer ++ c_string chunk; console_at = draining })

module _ (J : JsonLib) (R : Rtc) (text_of : List ℕ → String) where
  -- The lambda that `main` gives to the console thread.
  unfoldable pub on_console_line : List ℕ → Turn
  unfolding on_api modify
  on_console_line line =
      if is_quit line
      then modify (λ p. record p { running = false })
      else on_api (webrtc_send_chat_message J R (text_of line))

  -- `if (!line.empty()) onLine(line);`
  unfoldable pub give_line : List ℕ → Turn
  unfolding on_console_line pure
  give_line [] = pure tt
  give_line (c ∷ line) = on_console_line (c ∷ line)

  -- A round of the inner loop.
  unfoldable pub take_round : Option (List ℕ × List ℕ) → Turn
  unfolding give_line console_goes modify
  take_round none = console_goes testing
  take_round (some (line, rest)) = do modify (λ p. record p { buffer = rest }); give_line line

  unfoldable pub stop_main : Turn
  unfolding on_api main_goes
  stop_main = do on_api (webrtc_stop_2way_communication J R); main_goes (returned (pos 0))

  unfoldable pub main_at_turn : MainAt → Process → Turn
  unfolding wait join_console stop_main pure
  main_at_turn waiting p = wait p.running
  main_at_turn joining p = join_console p.console_at
  main_at_turn stopping p = stop_main
  main_at_turn (returned code) p = pure tt

  unfoldable pub main_turn : Turn
  unfolding main_at_turn
  main_turn p = main_at_turn p.main_at p p

  unfoldable pub console_at_turn : ConsoleAt → Option (List ℕ) → Process → Turn
  unfolding test read_input take_round pure
  console_at_turn testing input p = test p.running
  console_at_turn polling input p = read_input input
  console_at_turn draining input p = take_round (take_line p.buffer)
  console_at_turn ended input p = pure tt

  unfoldable pub console_turn : Option (List ℕ) → Turn
  unfolding console_at_turn
  console_turn input p = console_at_turn p.console_at input p p
