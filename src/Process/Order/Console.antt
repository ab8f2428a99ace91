-- ===== src/Process/Order/Console.antt =====
-- The turns of the console thread and the order.
use mathlib.Core.Path.{refl, subst}
use ant_media_server_confere.Base.{
  ℕ, String, ◌≡◌, sym, ap, ◌∙◌, inl, inr, Bool, true, false, Option, none, some, List, [], ◌∷◌,
  arith, Bool-cases,
}
use ant_media_server_confere.Base.Exec.{pure, modify, ◌>>=◌}
use ant_media_server_confere.Base.Exec.Ensures.{Post, Post-weaken}
use ant_media_server_confere.Platform.{JsonLib, Rtc, Call}
use ant_media_server_confere.Manager.Chat.{send_chat_message}
use ant_media_server_confere.Manager.Running.Facts.{IsRunning}
use ant_media_server_confere.Manager.Running.Callbacks
use ant_media_server_confere.Console.Input.{take_line, is_quit}
use ant_media_server_confere.Api.Instance.{webrtc_send_chat_message}
use ant_media_server_confere.Process.Threads.{
  MainAt, waiting, joining, stopping, returned, ConsoleAt, testing, polling, draining, ended,
  Process, on_api, console_goes, test, read_input, on_console_line, give_line, take_round,
  console_at_turn,
}
use ant_media_server_confere.Process.Begins.{Held}
use ant_media_server_confere.Process.Order.Facts.{
  is_ended, Stage, InOrder, Any, Moved, on_instance-Moved, Keeps-returns,
}

-- The console thread is not at its end: `main` still waits or joins.
advance :
    (at : MainAt) (p q : Process) (cs ds : List Call)
    → Stage at p cs
    → is_ended p.console_at ≡ false
    → (p.running ≡ false → q.running ≡ false)
    → (Held IsRunning p.manager cs → Held IsRunning q.manager ds)
    → Stage at q ds
advance waiting p q cs ds s on over next = next s
advance joining p q cs ds s on over next = (over s.0, next s.1)
advance stopping p q cs ds s on over next = absurd (ground (arith, ap is_ended s.1))
advance (returned code) p q cs ds s on over next = absurd (ground (arith, ap is_ended s.2))

-- Then the manager is communicating.
Stage-Held :
    (at : MainAt) (p : Process) (cs : List Call)
    → Stage at p cs
    → is_ended p.console_at ≡ false
    → Held IsRunning p.manager cs
Stage-Held waiting p cs s on = s
Stage-Held joining p cs s on = s.1
Stage-Held stopping p cs s on = s.2
Stage-Held (returned code) p cs s on = absurd (ground (arith, ap is_ended s.2))

Moved-InOrder :
    (p q : Process) (cs ds : List Call)
    → InOrder p cs
    → is_ended p.console_at ≡ false
    → Moved IsRunning p q ds
    → InOrder q ds
Moved-InOrder p q cs ds h on g = record {
  stage =
      subst (λ at. Stage at q ds) (sym g.same_main)
        (advance p.main_at p q cs ds h.stage on (λ over. g.same_running ∙ over) (λ _. g.held));
  console_over = λ e. absurd (ground (arith, on, ap is_ended (sym g.same_console ∙ e)));
}

-- A turn of the console thread that leaves everything but its own place and the buffer alone.
same_stage :
    (p q : Process) (cs : List Call)
    → InOrder p cs
    → is_ended p.console_at ≡ false
    → q.main_at ≡ p.main_at
    → q.running ≡ p.running
    → q.manager ≡ p.manager
    → is_ended q.console_at ≡ false
    → InOrder q cs
same_stage p q cs h on main running manager still = record {
  stage =
      subst (λ at. Stage at q cs) (sym main)
        (advance p.main_at p q cs cs h.stage on (λ over. running ∙ over)
          (subst (λ o. Held IsRunning o cs) (sym manager)));
  console_over = λ e. absurd (ground (arith, still, ap is_ended e));
}

module _ (J : JsonLib) (R : Rtc) (text_of : List ℕ → String) where
  give_line-InOrder :
      (line : List ℕ) (p : Process) (cs : List Call)
      → InOrder p cs
      → is_ended p.console_at ≡ false
      → Post (λ _. InOrder) Any (give_line J R text_of line p cs)
  unfolding give_line on_console_line modify pure webrtc_send_chat_message
  give_line-InOrder [] p cs h on = h
  give_line-InOrder (c ∷ line) p cs h on = elim (Bool-cases (is_quit (c ∷ line))) [
    | inl quit ↦ rw quit (record {
      stage = advance p.main_at p _ cs cs h.stage on (λ _. refl) (λ held. held);
      console_over = λ _. refl;
    })
    | inr other ↦ rw other (
        Post-weaken {Q' = λ _. InOrder} {E' = Any}
          (on_api (webrtc_send_chat_message J R (text_of (c ∷ line))) p cs)
          (λ _ q ds g. Moved-InOrder p q cs ds h on g) (λ q ds g. tt)
          (on_instance-Moved IsRunning (send_chat_message J R (text_of (c ∷ line))) p cs
            (Stage-Held p.main_at p cs h.stage on)
            (Keeps-returns _ (Callbacks.send_chat_message-IsRunning J R _))))
  ]

  take_round-InOrder :
      (o : Option (List ℕ × List ℕ)) (p : Process) (cs : List Call)
      → InOrder p cs
      → p.console_at ≡ draining
      → Post (λ _. InOrder) Any (take_round J R text_of o p cs)
  unfolding take_round console_goes modify ◌>>=◌
  take_round-InOrder none p cs h at = same_stage p _ cs h (ap is_ended at) refl refl refl refl
  take_round-InOrder (some (line, rest)) p cs h at =
      give_line-InOrder line (record p { buffer = rest }) cs
        (same_stage p _ cs h (ap is_ended at) refl refl refl (ap is_ended at)) (ap is_ended at)

  test-InOrder :
      (b : Bool) (p : Process) (cs : List Call)
      → InOrder p cs
      → p.console_at ≡ testing
      → p.running ≡ b
      → Post (λ _. InOrder) Any (test b p cs)
  unfolding test console_goes modify
  test-InOrder true p cs h at e = same_stage p _ cs h (ap is_ended at) refl refl refl refl
  test-InOrder false p cs h at e = record {
    stage = advance p.main_at p _ cs cs h.stage (ap is_ended at) (λ over. over) (λ held. held);
    console_over = λ _. e;
  }

  pub console_at_turn-InOrder :
      (at : ConsoleAt) (input : Option (List ℕ)) (p : Process) (cs : List Call)
      → InOrder p cs
      → p.console_at ≡ at
      → Post (λ _. InOrder) Any (console_at_turn J R text_of at input p p cs)
  unfolding console_at_turn read_input console_goes modify pure
  console_at_turn-InOrder testing input p cs h at = test-InOrder p.running p cs h at refl
  console_at_turn-InOrder polling none p cs h at =
      same_stage p _ cs h (ap is_ended at) refl refl refl refl
  console_at_turn-InOrder polling (some chunk) p cs h at =
      same_stage p _ cs h (ap is_ended at) refl refl refl refl
  console_at_turn-InOrder draining input p cs h at =
      take_round-InOrder (take_line p.buffer) p cs h at
  console_at_turn-InOrder ended input p cs h at = h
