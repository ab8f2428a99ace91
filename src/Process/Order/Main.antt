-- ===== src/Process/Order/Main.antt =====
-- The turns of `main` and the order.
use mathlib.Core.Path.{refl, subst}
use ant_media_server_confere.Base.{ℕ, String, ◌≡◌, ◌∙◌, Bool, true, false, List}
use ant_media_server_confere.Base.Exec.{Outcome, done, thrown, pure, modify, ◌>>=◌}
use ant_media_server_confere.Base.Exec.Ensures.{Post}
use ant_media_server_confere.Platform.{JsonLib, Rtc, Call}
use ant_media_server_confere.Platform.Int.{pos}
use ant_media_server_confere.Manager.Lifecycle.{stop_2way_communication}
use ant_media_server_confere.Manager.Idle.Facts.{IsIdle}
use ant_media_server_confere.Manager.Idle.Start.{stop_2way_communication-IsIdle}
use ant_media_server_confere.Api.Instance.{with_instance, webrtc_stop_2way_communication}
use ant_media_server_confere.Process.Threads.{
  MainAt, waiting, joining, stopping, returned, ConsoleAt, testing, polling, draining, ended,
  Process, on_api, main_goes, wait, join_console, stop_main, main_at_turn,
}
use ant_media_server_confere.Process.Order.Facts.{Stage, InOrder, Any, Moved, on_instance-Moved}

wait-InOrder :
    (b : Bool) (p : Process) (cs : List Call)
    → InOrder p cs
    → p.main_at ≡ waiting
    → p.running ≡ b
    → Post (λ _. InOrder) Any (wait b p cs)
unfolding wait main_goes modify pure
wait-InOrder true p cs h at e = h
wait-InOrder false p cs h at e = record {
  stage = (e, subst (λ a. Stage a p cs) at h.stage);
  console_over = h.console_over;
}

join_console-InOrder :
    (c : ConsoleAt) (p : Process) (cs : List Call)
    → InOrder p cs
    → p.main_at ≡ joining
    → p.console_at ≡ c
    → Post (λ _. InOrder) Any (join_console c p cs)
unfolding join_console main_goes modify pure
join_console-InOrder ended p cs h at e = record {
  stage = let s : Stage joining p cs = subst (λ a. Stage a p cs) at h.stage in (s.0, e, s.1);
  console_over = h.console_over;
}
join_console-InOrder testing p cs h at e = h
join_console-InOrder polling p cs h at e = h
join_console-InOrder draining p cs h at e = h

module _ (J : JsonLib) (R : Rtc) (text_of : List ℕ → String) where
  stop_main-InOrder :
      (p : Process) (cs : List Call)
      → InOrder p cs
      → Stage stopping p cs
      → Post (λ _. InOrder) Any (stop_main J R text_of p cs)
  unfolding stop_main main_goes modify webrtc_stop_2way_communication ◌>>=◌
  stop_main-InOrder p cs h s = go (on_api (with_instance (stop_2way_communication J R)) p cs) (
      on_instance-Moved IsIdle (stop_2way_communication J R) p cs s.2
        (stop_2way_communication-IsIdle J R))
    where
      go :
          (o : Outcome Process Call (Unit {0}))
          → Post (λ _ q ds. Moved IsIdle p q ds) Any o
          → Post
              (λ _. InOrder)
              Any
              (elim o [
                | done a q ds ↦ done tt (record q { main_at = returned (pos 0) }) ds
                | thrown q ds ↦ thrown q ds
              ])
      go (done a q ds) m = record {
        stage = (refl, m.same_running ∙ s.0, m.same_console ∙ s.1, m.held);
        console_over = λ e. m.same_running ∙ s.0;
      }
      go (thrown q ds) m = tt

  pub main_at_turn-InOrder :
      (at : MainAt) (p : Process) (cs : List Call)
      → InOrder p cs
      → p.main_at ≡ at
      → Post (λ _. InOrder) Any (main_at_turn J R text_of at p p cs)
  unfolding main_at_turn pure
  main_at_turn-InOrder waiting p cs h at = wait-InOrder p.running p cs h at refl
  main_at_turn-InOrder joining p cs h at = join_console-InOrder p.console_at p cs h at refl
  main_at_turn-InOrder stopping p cs h at =
      stop_main-InOrder p cs h (subst (λ a. Stage a p cs) at h.stage)
  main_at_turn-InOrder (returned code) p cs h at = h
