-- ===== src/Process/Ends/Facts.antt =====
-- How far the two threads are from their ends.
use mathlib.Core.Path.{refl}
use ant_media_server_confere.Base.{
  ℕ, ◌+◌, ◌-◌, ◌<◌, ◌≤◌, ◌≡◌, ap, false, Option, none, some, List, [], ◌∷◌, ◌++◌, arith,
}
use ant_media_server_confere.Base.Exec.{Outcome, done, thrown, embed}
use ant_media_server_confere.Base.Exec.Ensures.{Post}
use ant_media_server_confere.Platform.{Call}
use ant_media_server_confere.Platform.Int.{pos}
use ant_media_server_confere.Manager.State.{Manager}
use ant_media_server_confere.Api.Instance.{Api}
use ant_media_server_confere.Console.Input.{length, c_string}
use ant_media_server_confere.Process.Threads.{
  MainAt, waiting, joining, stopping, returned, ConsoleAt, testing, polling, draining, ended,
  Process, on_api,
}

-- `read` gives at most 511 bytes.
abbrev pub FitsBuffer : Option (List ℕ) → Type 0
FitsBuffer none = Unit {0}
FitsBuffer (some chunk) = length chunk < 512

-- How many turns a thread has left at most.
abbrev pub console_left : ConsoleAt → ℕ → ℕ
console_left testing bytes = 1
console_left polling bytes = 514 + bytes
console_left draining bytes = 2 + bytes
console_left ended bytes = 0

abbrev pub main_left : MainAt → ℕ
main_left waiting = 3
main_left joining = 2
main_left stopping = 1
main_left (returned code) = 0

abbrev pub turns_left : Process → ℕ
turns_left p = console_left p.console_at (length p.buffer) + main_left p.main_at

-- If `main` has returned, then with 0.
abbrev pub Returns0 : MainAt → Type 0
Returns0 (returned code) = code ≡ pos 0
Returns0 _ = Unit {0}

-- A turn of the console thread, once g_appRunning is false.
abbrev pub ConsoleGone : Process → Process → Type 0
ConsoleGone p q =
    (q.running ≡ false)
    × (q.main_at ≡ p.main_at)
    × (console_left q.console_at (length q.buffer)
        ≤ console_left p.console_at (length p.buffer) - 1)

-- The manager does not matter to how far the threads are.
abbrev pub SameThreads : Process → Process → Type 0
SameThreads p q =
    (q.running ≡ p.running)
    × (q.main_at ≡ p.main_at)
    × (q.console_at ≡ p.console_at)
    × (q.buffer ≡ p.buffer)

abbrev pub Any : Process → List Call → Type 0
Any p cs = Unit {0}

-- A turn of `main`, once g_appRunning is false.
abbrev pub MainGone : Process → Process → Type 0
MainGone p q =
    (q.running ≡ p.running)
    × (console_left q.console_at (length q.buffer) ≡ console_left p.console_at (length p.buffer))
    × (main_left q.main_at
        ≤ main_left p.main_at - (1 - console_left p.console_at (length p.buffer)))
    × (Returns0 p.main_at → Returns0 q.main_at)

pub on_api-SameThreads :
    (m : Api (Unit {0})) (p : Process) (cs : List Call)
    → Post (λ _ q _. SameThreads p q) Any (on_api m p cs)
unfolding on_api
on_api-SameThreads m p cs = go (m p.manager cs)
  where
    go :
        (o : Outcome (Option Manager) Call (Unit {0}))
        → Post (λ _ q _. SameThreads p q) Any (embed (λ x. record p { manager = x }) o)
    go (done a x ds) = (refl, refl, refl, refl)
    go (thrown x ds) = tt

pub length-c_string : (l : List ℕ) → length (c_string l) ≤ length l
unfolding c_string
length-c_string [] = omega arith
length-c_string (c ∷ l) = ground (arith, length-c_string l)

pub length-append : (a b : List ℕ) → length (a ++ b) ≡ length a + length b
length-append [] b = omega arith
length-append (c ∷ a) b = omega (arith, length-append a b)

pub at_left :
    (p : Process) (at : ConsoleAt)
    → p.console_at ≡ at
    → console_left p.console_at (length p.buffer) ≡ console_left at (length p.buffer)
at_left p at e = ap (λ a. console_left a (length p.buffer)) e
