-- ===== src/Process/Ends/Rounds.antt =====
-- Any order of turns in which both threads go on.
use mathlib.Core.Path.{refl, subst}
use ant_media_server_confere.Base.{
  ℕ, suc, String, ◌+◌, ◌-◌, ◌≤◌, ◌≡◌, sym, ap, ◌∙◌, Bool, true, false, Option, List, [], ◌∷◌, arith,
}
use ant_media_server_confere.Base.Exec.{pure, ◌>>◌}
use ant_media_server_confere.Base.Exec.Ensures.{Post, Post-weaken}
use ant_media_server_confere.Platform.{JsonLib, Rtc, Call}
use ant_media_server_confere.Platform.Int.{pos}
use ant_media_server_confere.Console.Input.{length}
use ant_media_server_confere.Process.Threads.{
  MainAt, waiting, joining, stopping, returned, Process, Turn, main_at_turn, main_turn,
  console_at_turn, console_turn,
}
use ant_media_server_confere.Process.Ends.Facts.{
  FitsBuffer, console_left, main_left, turns_left, Returns0, Any,
}
use ant_media_server_confere.Process.Ends.Console.{console_at_turn-ConsoleGone}
use ant_media_server_confere.Process.Ends.Main.{main_at_turn-MainGone}
use ant_media_server_confere.Base.Exec.Ensures.{Ensures, Ensures-bind}

-- A turn of one of the threads, with what the libraries answer and what `poll` and `read` give.
pub data Move : Type 0 where
  main_moves : Rtc → Move
  console_moves : Rtc → Option (List ℕ) → Move

abbrev pub FitsMove : Move → Type 0
FitsMove (main_moves R) = Unit {0}
FitsMove (console_moves R input) = FitsBuffer input

abbrev pub AllFit : List Move → Type 0
AllFit [] = Unit {0}
AllFit (m ∷ moves) = FitsMove m × AllFit moves

-- The rounds in a list of moves: a round is over once each thread has had a turn in it. The
-- numbers say whether `main` and whether the console thread had one in this round already.
unfoldable pub rounds_from : Bool → Bool → List Move → ℕ
rounds_from main console [] = 0
rounds_from main true (main_moves R ∷ moves) = suc (rounds_from false false moves)
rounds_from main false (main_moves R ∷ moves) = rounds_from true false moves
rounds_from true console (console_moves R input ∷ moves) = suc (rounds_from false false moves)
rounds_from false console (console_moves R input ∷ moves) = rounds_from false true moves

unfoldable pub rounds : List Move → ℕ
unfolding rounds_from
rounds moves = rounds_from false false moves

module _ (J : JsonLib) (text_of : List ℕ → String) where
  unfoldable pub move : Move → Turn
  unfolding main_turn console_turn
  move (main_moves R) = main_turn J R text_of
  move (console_moves R input) = console_turn J R text_of input

  unfoldable pub play : List Move → Turn
  unfolding move pure
  play [] = pure tt
  play (m ∷ moves) = do move m; play moves

-- What is left after a part of a round that began with `c` and `m` turns left.
record Pace (c m : ℕ) (main console : Bool) (p : Process) (cs : List Call) : Type 0 where
  over : p.running ≡ false
  returns : Returns0 p.main_at
  console_before : console_left p.console_at (length p.buffer) ≤ c
  main_before : main_left p.main_at ≤ m
  console_after : console ≡ true → console_left p.console_at (length p.buffer) ≤ c - 1
  main_after : main ≡ true → main_left p.main_at ≤ m - (1 - c)

abbrev Finished : Process → List Call → Type 0
Finished p cs = p.main_at ≡ returned (pos 0)

at_end : (at : MainAt) → main_left at ≡ 0 → Returns0 at → at ≡ returned (pos 0)
at_end (returned code) left r = ap returned r
at_end waiting left r = absurd (omega arith)
at_end joining left r = absurd (omega arith)
at_end stopping left r = absurd (omega arith)

module _ (J : JsonLib) (text_of : List ℕ → String) where
  main_turn-Pace :
      (R : Rtc) (c m : ℕ) (main console : Bool)
      → Ensures (Pace c m main console) (main_turn J R text_of) (λ _. Pace c m true console) Any
  unfolding main_turn
  main_turn-Pace R c m main console = record {
    apply = λ p cs h.
        Post-weaken (main_at_turn J R text_of p.main_at p p cs)
          (λ _ q ds g. record {
            over = g.0 ∙ h.over;
            returns = g.3 h.returns;
            console_before = omega (arith, h.console_before, g.1);
            main_before = omega (arith, h.main_before, g.2);
            console_after = λ b. omega (arith, h.console_after b, g.1);
            main_after = λ b. omega (arith, g.2, h.console_before, h.main_before);
          })
          (λ q ds g. tt) (main_at_turn-MainGone J R text_of p.main_at p cs refl h.over);
  }

  console_turn-Pace :
      (R : Rtc) (input : Option (List ℕ)) (c m : ℕ) (main console : Bool)
      → FitsBuffer input
      → Ensures
          (Pace c m main console)
          (console_turn J R text_of input)
          (λ _. Pace c m main true)
          Any
  unfolding console_turn
  console_turn-Pace R input c m main console small = record {
    apply = λ p cs h.
        Post-weaken (console_at_turn J R text_of p.console_at input p p cs)
          (λ _ q ds g. record {
            over = g.0;
            returns = subst Returns0 (sym g.1) h.returns;
            console_before = omega (arith, h.console_before, g.2);
            main_before = omega (arith, h.main_before, ap main_left g.1);
            console_after = λ b. omega (arith, h.console_before, g.2);
            main_after = λ b. omega (arith, h.main_after b, ap main_left g.1);
          })
          (λ q ds g. tt)
          (console_at_turn-ConsoleGone J text_of R p.console_at input p cs small refl h.over);
  }

  -- The round is over: what is left is less than at its beginning.
  next_round :
      {c m n : ℕ} (moves : List Move)
      → c + m ≤ suc n
      → ((c' m' : ℕ)
          → c' + m' ≤ n
          → Ensures (Pace c' m' false false) (play J text_of moves) (λ _. Finished) Any)
      → Ensures (Pace c m true true) (play J text_of moves) (λ _. Finished) Any
  next_round moves e later = record {
    apply = λ p cs h.
        (later (console_left p.console_at (length p.buffer)) (main_left p.main_at) (
            omega (
              arith,
              h.console_after refl,
              h.main_after refl,
              h.console_before,
              h.main_before,
            ))).apply
          p cs
          (record {
            over = h.over;
            returns = h.returns;
            console_before = omega arith;
            main_before = omega arith;
            console_after = λ b. absurd (ground (arith, b));
            main_after = λ b. absurd (ground (arith, b));
          });
  }

  play-Finished :
      (moves : List Move) (main console : Bool) (c m : ℕ)
      → AllFit moves
      → c + m ≤ rounds_from main console moves
      → Ensures (Pace c m main console) (play J text_of moves) (λ _. Finished) Any
  unfolding play move rounds_from pure
  play-Finished [] main console c m fit e = record {
    apply = λ p cs h. at_end p.main_at (omega (arith, h.main_before)) h.returns;
  }
  play-Finished (main_moves R ∷ moves) main false c m fit e =
      Ensures-bind (main_turn-Pace R c m main false)
        (λ _. play-Finished moves true false c m fit.1 e)
  play-Finished (main_moves R ∷ moves) main true c m fit e =
      Ensures-bind (main_turn-Pace R c m main true)
        (λ _. next_round moves e (λ c' m'. play-Finished moves false false c' m' fit.1))
  play-Finished (console_moves R input ∷ moves) false console c m fit e =
      Ensures-bind (console_turn-Pace R input c m false console fit.0)
        (λ _. play-Finished moves false true c m fit.1 e)
  play-Finished (console_moves R input ∷ moves) true console c m fit e =
      Ensures-bind (console_turn-Pace R input c m true console fit.0)
        (λ _. next_round moves e (λ c' m'. play-Finished moves false false c' m' fit.1))

  -- Once g_appRunning is false, the process ends: whatever the order of the turns, whatever the
  -- libraries answer and whatever is typed (reads of less than 512 bytes), after as many rounds as
  -- the threads have turns left, `main` has returned 0, or an exception has left a thread before.
  -- Each thread has at least one turn in a round, and `main` had not returned anything but 0.
  pub play-Returns0 :
      (moves : List Move) (p : Process) (cs : List Call)
      → AllFit moves
      → p.running ≡ false
      → Returns0 p.main_at
      → turns_left p ≤ rounds moves
      → Post (λ _ q _. q.main_at ≡ returned (pos 0)) (λ _ _. Unit {0}) (play J text_of moves p cs)
  unfolding rounds
  play-Returns0 moves p cs fit over returns e =
      (play-Finished moves false false (console_left p.console_at (length p.buffer))
          (main_left p.main_at) fit e).apply
        p cs
        (record {
          over = over;
          returns = returns;
          console_before = omega arith;
          main_before = omega arith;
          console_after = λ b. absurd (ground (arith, b));
          main_after = λ b. absurd (ground (arith, b));
        })
