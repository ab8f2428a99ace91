-- ===== src/Process/Order/Facts.antt =====
-- What holds at each place of `main` and of the console thread.
use mathlib.Core.Path.{refl}
use ant_media_server_confere.Base.{◌≡◌, Bool, true, false, Option, none, some, List}
use ant_media_server_confere.Base.Exec.{Outcome, done, thrown, with_part, on_part, embed}
use ant_media_server_confere.Base.Exec.Keeps.{Keeps}
use ant_media_server_confere.Base.Exec.Ensures.{Post, Ensures-of_Keeps}
use ant_media_server_confere.Platform.{Call}
use ant_media_server_confere.Platform.Int.{pos}
use ant_media_server_confere.Manager.State.{Manager, Method}
use ant_media_server_confere.Manager.Running.Facts.{IsRunning}
use ant_media_server_confere.Manager.Idle.Facts.{IsIdle}
use ant_media_server_confere.Api.Instance.{with_instance}
use ant_media_server_confere.Process.Threads.{
  MainAt, waiting, joining, stopping, returned, ConsoleAt, testing, polling, draining, ended,
  Process, on_api,
}
use ant_media_server_confere.Process.Begins.{Held}

abbrev pub is_ended : ConsoleAt → Bool
is_ended ended = true
is_ended testing = false
is_ended polling = false
is_ended draining = false

-- What holds at each place of `main`.
abbrev pub Stage : MainAt → Process → List Call → Type 0
Stage waiting p cs = Held IsRunning p.manager cs
Stage joining p cs = (p.running ≡ false) × Held IsRunning p.manager cs
Stage stopping p cs = (p.running ≡ false) × (p.console_at ≡ ended) × Held IsRunning p.manager cs
Stage (returned code) p cs =
    (code ≡ pos 0) × (p.running ≡ false) × (p.console_at ≡ ended) × Held IsIdle p.manager cs

pub record InOrder (p : Process) (cs : List Call) : Type 0 where
  pub stage : Stage p.main_at p cs
  pub console_over : p.console_at ≡ ended → p.running ≡ false

abbrev pub Any : Process → List Call → Type 0
Any p cs = Unit {0}

-- A function of the API moves the manager, and nothing else of the process.
pub record Moved (P : Manager → List Call → Type 0) (p q : Process) (ds : List Call) : Type 0 where
  pub same_running : q.running ≡ p.running
  pub same_main : q.main_at ≡ p.main_at
  pub same_console : q.console_at ≡ p.console_at
  pub held : Held P q.manager ds

pub on_instance-Moved :
    (P : Manager → List Call → Type 0) (x : Method) (p : Process) (cs : List Call)
    → Held IsRunning p.manager cs
    → ((m : Manager) (ds : List Call) → IsRunning m ds → Post (λ _. P) IsRunning (x m ds))
    → Post (λ _ q ds. Moved P p q ds) Any (on_api (with_instance x) p cs)
unfolding on_api with_instance with_part
on_instance-Moved P x p cs held keeps = from p.manager held
  where
    put : Option Manager → Process
    put o = record p { manager = o }

    ends :
        (o : Outcome Manager Call (Unit {0}))
        → Post (λ _. P) IsRunning o
        → Post (λ _ q ds. Moved P p q ds) Any (embed put (embed some o))
    ends (done a m ds) h = record {
      same_running = refl;
      same_main = refl;
      same_console = refl;
      held = h;
    }
    ends (thrown m ds) h = tt

    from :
        (o : Option Manager)
        → Held IsRunning o cs
        → Post (λ _ q ds. Moved P p q ds) Any (embed put (on_part tt o (λ m. some m) x o cs))
    from none h = absurd h
    from (some m) h = ends (x m cs) (keeps m cs h)

-- The contract of a method that keeps the invariant.
pub Keeps-returns :
    (x : Method)
    → Keeps IsRunning x
    → (m : Manager) (cs : List Call) → IsRunning m cs
    → Post (λ _. IsRunning) IsRunning (x m cs)
Keeps-returns x k m cs h = (Ensures-of_Keeps k).apply m cs h
