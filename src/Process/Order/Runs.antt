-- ===== src/Process/Order/Runs.antt =====
-- The order over the runs of the process.
use mathlib.Core.Path.{refl, subst}
use ant_media_server_confere.Base.{ℕ, String, ◌≡◌, ap, true, Option, some, List, arith}
use ant_media_server_confere.Base.Exec.{state, calls}
use ant_media_server_confere.Base.Exec.Ensures.{Post}
use ant_media_server_confere.Platform.{JsonLib, Rtc, Call}
use ant_media_server_confere.Gst.State.{Target}
use ant_media_server_confere.Manager.State.{Manager}
use ant_media_server_confere.Manager.Steps.{Callback, react}
use ant_media_server_confere.Manager.Running.Facts.{IsRunning}
use ant_media_server_confere.Manager.Idle.Facts.{IsIdle}
use ant_media_server_confere.Manager.Invariant.{react-IsRunning}
use ant_media_server_confere.Process.Threads.{
  MainAt, waiting, joining, stopping, returned, Process, main_turn, console_turn,
}
use ant_media_server_confere.Process.Begins.{Held, Begun, begin-Begun}
use ant_media_server_confere.Process.Ends.Rounds.{Move, main_moves, console_moves, move}
use ant_media_server_confere.Process.Steps.{signalled, turn, signal, callback, Run, begun, goes_on}
use ant_media_server_confere.Process.Order.Facts.{is_ended, Stage, InOrder, Any}
use ant_media_server_confere.Process.Order.Console.{console_at_turn-InOrder}
use ant_media_server_confere.Process.Order.Main.{main_at_turn-InOrder}

signalled-Stage :
    (at : MainAt) (p : Process) (cs : List Call) → Stage at p cs → Stage at (signalled p) cs
signalled-Stage waiting p cs s = s
signalled-Stage joining p cs s = (refl, s.1)
signalled-Stage stopping p cs s = (refl, s.1, s.2)
signalled-Stage (returned code) p cs s = (s.0, refl, s.2, s.3)

signalled-InOrder : (p : Process) (cs : List Call) → InOrder p cs → InOrder (signalled p) cs
signalled-InOrder p cs h = record {
  stage = signalled-Stage p.main_at p cs h.stage;
  console_over = λ _. refl;
}

module _ (J : JsonLib) (target : Target) (text_of : List ℕ → String) where
  pub move-InOrder :
      (m : Move) (p : Process) (cs : List Call)
      → InOrder p cs
      → Post (λ _. InOrder) Any (move J text_of m p cs)
  unfolding move main_turn console_turn
  move-InOrder (main_moves R) p cs h = main_at_turn-InOrder J R text_of p.main_at p cs h refl
  move-InOrder (console_moves R input) p cs h =
      console_at_turn-InOrder J R text_of p.console_at input p cs h refl

  react-Held :
      (R : Rtc) (c : Callback) (o : Option Manager) (m : Manager) (cs : List Call)
      → o ≡ some m
      → Held IsRunning o cs
      → IsRunning (state (react J target R c m cs)) (calls (react J target R c m cs))
  react-Held R c o m cs e held =
      (react-IsRunning J target R c).at m cs (subst (λ x. Held IsRunning x cs) e held)

  -- A callback finds a manager that is communicating, which it leaves in order.
  callback-Stage :
      (R : Rtc) (c : Callback) (at : MainAt) (p : Process) (cs : List Call) (m : Manager)
      → p.manager ≡ some m
      → m.is_communicating ≡ true
      → Stage at p cs
      → Stage at
          (record p { manager = some (state (react J target R c m cs)) })
          (calls (react J target R c m cs))
  callback-Stage R c waiting p cs m e on s = react-Held R c p.manager m cs e s
  callback-Stage R c joining p cs m e on s = (s.0, react-Held R c p.manager m cs e s.1)
  callback-Stage R c stopping p cs m e on s = (s.0, s.1, react-Held R c p.manager m cs e s.2)
  callback-Stage R c (returned code) p cs m e on s =
      absurd (ground (arith, on, (subst (λ x. Held IsIdle x cs) e s.3).not_communicating))

  -- In every run of the process, whatever the order of the turns, the signals and the callbacks and
  -- whatever the libraries answer, `main` joins the console thread only when g_appRunning is false,
  -- it stops the communication only when the console thread has ended, and if it returns, then 0,
  -- with the console thread ended and a manager that holds nothing. Until it returns, the manager is
  -- communicating, with its maps in order, and the console thread has ended only when g_appRunning
  -- is false. A run ends with the first exception that leaves one of the two threads.
  pub Run-InOrder : {p : Process} {cs : List Call} → Run J target text_of p cs → InOrder p cs
  Run-InOrder (begun R environment is_player number running e) = record {
    stage =
        subst (Post Begun (Held IsRunning)) e (begin-Begun J R target environment is_player number);
    console_over = λ over. absurd (ground (arith, ap is_ended over));
  }
  Run-InOrder (goes_on {p} {cs = cs} r (turn m fit e)) =
      subst (Post (λ _. InOrder) Any) e (move-InOrder m p cs (Run-InOrder r))
  Run-InOrder (goes_on {p} {cs = cs} r (signal e f)) =
      rw (e, f) (signalled-InOrder p cs (Run-InOrder r))
  Run-InOrder (goes_on {p} {cs = cs} r (callback R c m e on f g)) =
      rw (f, g)
        (record {
          stage = callback-Stage R c p.main_at p cs m e on (Run-InOrder r).stage;
          console_over = (Run-InOrder r).console_over;
        })
