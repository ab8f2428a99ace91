-- ===== src/Process/Steps.antt =====
-- One run of the process: turns of the two threads, signals, and callbacks of the libraries, in any
-- order, from where `main` has started the console thread.
use ant_media_server_confere.Base.{ℕ, String, ◌≡◌, Bool, true, false, Option, none, some, List, []}
use ant_media_server_confere.Base.Exec.{done, state, calls}
use ant_media_server_confere.Platform.{JsonLib, Rtc, Call}
use ant_media_server_confere.Gst.State.{Target}
use ant_media_server_confere.Manager.State.{Manager}
use ant_media_server_confere.Manager.Steps.{Callback, react}
use ant_media_server_confere.Api.Instance.{begin}
use ant_media_server_confere.Process.Threads.{Process, waiting, testing}
use ant_media_server_confere.Process.Ends.Rounds.{Move, FitsMove, move}

-- The handler of SIGINT and SIGTERM.
abbrev pub signalled : Process → Process
signalled p = record p { running = false }

-- A signal may have come before the threads are there.
abbrev pub threads_start : Bool → Option Manager → Process
threads_start running o = record {
  running = running;
  manager = o;
  buffer = [];
  main_at = waiting;
  console_at = testing;
}

module _ (J : JsonLib) (target : Target) (text_of : List ℕ → String) where
  -- A turn that throws is the end of the process, and no step.
  pub data Step (p : Process) (cs : List Call) (q : Process) (ds : List Call) : Type 0 where
    turn : (m : Move) → FitsMove m → move J text_of m p cs ≡ done tt q ds → Step p cs q ds
    signal : q ≡ signalled p → ds ≡ cs → Step p cs q ds
    callback :
        (R : Rtc) (c : Callback) (m : Manager)
        → p.manager ≡ some m
        → m.is_communicating ≡ true
        → q ≡ record p { manager = some (state (react J target R c m cs)) }
        → ds ≡ calls (react J target R c m cs)
        → Step p cs q ds

  -- `number` is the text of rand(), and `running` whether no signal has come yet.
  pub data Run : Process → List Call → Type 0 where
    begun :
        (R : Rtc) (environment : Option String) (is_player : Bool) (number : String)
        (running : Bool) {o : Option Manager} {cs : List Call}
        → begin J R target environment is_player number none [] ≡ done true o cs
        → Run (threads_start running o) cs
    goes_on : {p q : Process} {cs ds : List Call} → Run p cs → Step p cs q ds → Run q ds
