-- ===== src/Process/Ends/Console.antt =====
-- The console thread once g_appRunning is false.
use mathlib.Core.Path.{refl}
use ant_media_server_confere.Base.{
  ℕ, String, ◌≡◌, sym, ap, ◌∙◌, Bool, true, false, Option, none, some, List, [], ◌∷◌, arith,
  Bool-cases, inl, inr,
}
use ant_media_server_confere.Base.Exec.{pure, modify, ◌>>=◌}
use ant_media_server_confere.Base.Exec.Ensures.{Post, Post-weaken}
use ant_media_server_confere.Platform.{JsonLib, Rtc, Call}
use ant_media_server_confere.Api.Instance.{webrtc_send_chat_message}
use ant_media_server_confere.Console.Input.{length, c_string, take_line, is_quit}
use ant_media_server_confere.Console.Lines.{Shorter, take_line-Shorter}
use ant_media_server_confere.Process.Threads.{
  ConsoleAt, testing, polling, draining, ended, Process, console_goes, test, read_input,
  on_console_line, give_line, take_round, console_at_turn,
}
use ant_media_server_confere.Process.Ends.Facts.{
  FitsBuffer, ConsoleGone, SameThreads, Any, at_left, length-append, length-c_string,
  on_api-SameThreads,
}

test-ConsoleGone :
    (b : Bool) (p : Process) (cs : List Call)
    → p.console_at ≡ testing
    → p.running ≡ false
    → b ≡ false
    → Post (λ _ q _. ConsoleGone p q) Any (test b p cs)
unfolding test console_goes modify
test-ConsoleGone false p cs at e over = (e, refl, omega (arith, at_left p testing at))
test-ConsoleGone true p cs at e over = absurd (ground (arith, over))

module _ (J : JsonLib) (text_of : List ℕ → String) where
  give_line-SameThreads :
      (R : Rtc) (line : List ℕ) (p : Process) (cs : List Call)
      → p.running ≡ false
      → Post (λ _ q _. SameThreads p q) Any (give_line J R text_of line p cs)
  unfolding give_line on_console_line modify pure
  give_line-SameThreads R [] p cs e = (refl, refl, refl, refl)
  give_line-SameThreads R (c ∷ line) p cs e = elim (Bool-cases (is_quit (c ∷ line))) [
    | inl quit ↦ rw quit (sym e, refl, refl, refl)
    | inr other ↦
        rw other (on_api-SameThreads (webrtc_send_chat_message J R (text_of (c ∷ line))) p cs)
  ]

  take_round-ConsoleGone :
      (R : Rtc) (o : Option (List ℕ × List ℕ)) (p : Process) (cs : List Call)
      → Shorter p.buffer o
      → p.console_at ≡ draining
      → p.running ≡ false
      → Post (λ _ q _. ConsoleGone p q) Any (take_round J R text_of o p cs)
  unfolding take_round console_goes modify ◌>>=◌
  take_round-ConsoleGone R none p cs s at e = (e, refl, omega (arith, at_left p draining at))
  take_round-ConsoleGone R (some (line, rest)) p cs s at e =
      Post-weaken (give_line J R text_of line (record p { buffer = rest }) cs)
        (λ _ q ds h. (
          h.0 ∙ e,
          h.1,
          omega (arith, at_left p draining at, at_left q draining (h.2 ∙ at), ap length h.3),
        ))
        (λ q ds h. tt) (give_line-SameThreads R line (record p { buffer = rest }) cs e)

  pub console_at_turn-ConsoleGone :
      (R : Rtc) (at : ConsoleAt) (input : Option (List ℕ)) (p : Process) (cs : List Call)
      → FitsBuffer input
      → p.console_at ≡ at
      → p.running ≡ false
      → Post (λ _ q _. ConsoleGone p q) Any (console_at_turn J R text_of at input p p cs)
  unfolding console_at_turn test read_input console_goes modify pure
  console_at_turn-ConsoleGone R testing input p cs small at e =
      test-ConsoleGone p.running p cs at e e
  console_at_turn-ConsoleGone R polling none p cs small at e =
      (e, refl, omega (arith, at_left p polling at))
  console_at_turn-ConsoleGone R polling (some chunk) p cs small at e = (
    e,
    refl,
    omega (
      arith,
      at_left p polling at,
      length-append p.buffer (c_string chunk),
      length-c_string chunk,
    ),
  )
  console_at_turn-ConsoleGone R draining input p cs small at e =
      take_round-ConsoleGone R (take_line p.buffer) p cs (take_line-Shorter p.buffer) at e
  console_at_turn-ConsoleGone R ended input p cs small at e =
      (e, refl, omega (arith, at_left p ended at))
