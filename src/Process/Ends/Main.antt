-- ===== src/Process/Ends/Main.antt =====
-- `main` once g_appRunning is false.
use mathlib.Core.Path.{refl}
use ant_media_server_confere.Base.{ℕ, String, ◌<◌, ◌≡◌, ap, Bool, true, false, List, arith}
use ant_media_server_confere.Base.Exec.{Outcome, done, thrown, pure, modify, ◌>>=◌}
use ant_media_server_confere.Base.Exec.Ensures.{Post}
use ant_media_server_confere.Platform.{JsonLib, Rtc, Call}
use ant_media_server_confere.Platform.Int.{pos}
use ant_media_server_confere.Api.Instance.{webrtc_stop_2way_communication}
use ant_media_server_confere.Console.Input.{length}
use ant_media_server_confere.Process.Threads.{
  MainAt, waiting, joining, stopping, returned, ConsoleAt, testing, polling, draining, ended,
  Process, on_api, main_goes, wait, join_console, stop_main, main_at_turn,
}
use ant_media_server_confere.Process.Ends.Facts.{
  console_left, main_left, MainGone, SameThreads, Any, at_left, on_api-SameThreads,
}

wait-MainGone :
    (b : Bool) (p : Process) (cs : List Call)
    → p.main_at ≡ waiting
    → b ≡ false
    → Post (λ _ q _. MainGone p q) Any (wait b p cs)
unfolding wait main_goes modify
wait-MainGone false p cs at over = (refl, refl, omega (arith, ap main_left at), λ r. tt)
wait-MainGone true p cs at over = absurd (ground (arith, over))

-- The console thread is not at its end, and `main` waits for it.
stays : (p : Process) → 0 < console_left p.console_at (length p.buffer) → MainGone p p
stays p left = (refl, refl, omega (arith, left), λ r. r)

join_console-MainGone :
    (c : ConsoleAt) (p : Process) (cs : List Call)
    → p.main_at ≡ joining
    → p.console_at ≡ c
    → Post (λ _ q _. MainGone p q) Any (join_console c p cs)
unfolding join_console main_goes modify pure
join_console-MainGone ended p cs at c = (refl, refl, omega (arith, ap main_left at), λ r. tt)
join_console-MainGone testing p cs at c = stays p (omega (arith, at_left p testing c))
join_console-MainGone polling p cs at c = stays p (omega (arith, at_left p polling c))
join_console-MainGone draining p cs at c = stays p (omega (arith, at_left p draining c))

module _ (J : JsonLib) (R : Rtc) where
  stop_main-MainGone :
      (text_of : List ℕ → String) (p : Process) (cs : List Call)
      → p.main_at ≡ stopping
      → Post (λ _ q _. MainGone p q) Any (stop_main J R text_of p cs)
  unfolding stop_main main_goes modify ◌>>=◌
  stop_main-MainGone text_of p cs at =
      go (on_api (webrtc_stop_2way_communication J R) p cs)
        (on_api-SameThreads (webrtc_stop_2way_communication J R) p cs)
    where
      go :
          (o : Outcome Process Call (Unit {0}))
          → Post (λ _ q _. SameThreads p q) Any o
          → Post
              (λ _ q _. MainGone p q)
              Any
              (elim o [
                | done a q ds ↦ done tt (record q { main_at = returned (pos 0) }) ds
                | thrown q ds ↦ thrown q ds
              ])
      go (done a q ds) h =
          (h.0, rw (h.2) (rw (h.3) refl), omega (arith, ap main_left at), λ r. refl)
      go (thrown q ds) h = tt

module _ (J : JsonLib) (R : Rtc) (text_of : List ℕ → String) where
  pub main_at_turn-MainGone :
      (at : MainAt) (p : Process) (cs : List Call)
      → p.main_at ≡ at
      → p.running ≡ false
      → Post (λ _ q _. MainGone p q) Any (main_at_turn J R text_of at p p cs)
  unfolding main_at_turn pure
  main_at_turn-MainGone waiting p cs at over = wait-MainGone p.running p cs at over
  main_at_turn-MainGone joining p cs at over = join_console-MainGone p.console_at p cs at refl
  main_at_turn-MainGone stopping p cs at over = stop_main-MainGone J R text_of p cs at
  main_at_turn-MainGone (returned code) p cs at over =
      (refl, refl, omega (arith, ap main_left at), λ r. r)
