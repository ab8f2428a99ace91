-- ===== src/Process/Exit.antt =====
-- From a signal or `quit` to the end of the process.
use mathlib.Core.Path.{refl, subst}
use ant_media_server_confere.Base.{
  ℕ, String, ◌≤◌, ◌≡◌, ap, ◌⊎◌, inl, inr, Bool, false, Option, none, some, List, [], ◌∷◌,
}
use ant_media_server_confere.Base.Exec.{done, pure, with_part, embed}
use ant_media_server_confere.Base.Exec.Ensures.{Ensures, Ensures-bind, Post, Post-both, Post-weaken}
use ant_media_server_confere.Platform.{JsonLib, Rtc, Call}
use ant_media_server_confere.Platform.Int.{ℤ, pos, negsuc}
use ant_media_server_confere.Gst.State.{Target}
use ant_media_server_confere.Manager.State.{Manager}
use ant_media_server_confere.Manager.Lifecycle.{destroy_manager}
use ant_media_server_confere.Manager.Invariant.{stop-idle}
use ant_media_server_confere.Manager.Running.Facts.{IsRunning}
use ant_media_server_confere.Api.Instance.{with_instance, begin}
use ant_media_server_confere.Manager.Idle.Facts.{IsIdle}
use ant_media_server_confere.Process.Threads.{
  MainAt, waiting, joining, stopping, returned, ended, Process,
}
use ant_media_server_confere.Process.Begins.{Held, NothingHeld, Begun, begin-Begun}
use ant_media_server_confere.Process.Steps.{Run}
use ant_media_server_confere.Process.Ends.Facts.{turns_left, Returns0}
use ant_media_server_confere.Process.Ends.Rounds.{Move, AllFit, rounds, play, play-Returns0}
use ant_media_server_confere.Process.Order.Facts.{Stage, InOrder, Any}
use ant_media_server_confere.Process.Order.Runs.{move-InOrder, Run-InOrder}

Stage-Returns0 : (at : MainAt) (p : Process) (cs : List Call) → Stage at p cs → Returns0 at
Stage-Returns0 waiting p cs s = tt
Stage-Returns0 joining p cs s = tt
Stage-Returns0 stopping p cs s = tt
Stage-Returns0 (returned code) p cs s = s.0

-- `main` has returned 0, the console thread has ended, and the manager holds nothing.
abbrev pub Exited : Process → List Call → Type 0
Exited p cs = (p.main_at ≡ returned (pos 0)) × (p.console_at ≡ ended) × Held IsIdle p.manager cs

InOrder-Exited :
    (p : Process) (cs : List Call) → p.main_at ≡ returned (pos 0) → InOrder p cs → Exited p cs
InOrder-Exited p cs at h =
    let s : Stage (returned (pos 0)) p cs = subst (λ a. Stage a p cs) at h.stage in (at, s.2, s.3)

module _ (J : JsonLib) (target : Target) (text_of : List ℕ → String) where
  play-InOrder : (moves : List Move) → Ensures InOrder (play J text_of moves) (λ _. InOrder) Any
  unfolding play pure
  play-InOrder [] = record { apply = λ p cs h. h }
  play-InOrder (m ∷ moves) =
      Ensures-bind (record { apply = λ p cs h. move-InOrder J target text_of m p cs h })
        (λ _. play-InOrder moves)

  -- In every run of the process, once g_appRunning is false, whatever the order of the turns that
  -- follow, whatever the libraries answer and whatever is typed, in reads of less than 512 bytes:
  -- if both threads go on for as many rounds as they have turns left, each with at least one turn
  -- in a round, then `main` has returned 0, the console thread has ended and the manager holds
  -- nothing, or an exception has left one of the threads before.
  pub play-Exited :
      {p : Process} {cs : List Call} (moves : List Move)
      → Run J target text_of p cs
      → p.running ≡ false
      → AllFit moves
      → turns_left p ≤ rounds moves
      → Post (λ _. Exited) (λ _ _. Unit {0}) (play J text_of moves p cs)
  play-Exited {p} {cs} moves r over fit e =
      Post-weaken {Q' = λ _. Exited} {E' = λ _ _. Unit {0}} (play J text_of moves p cs)
        (λ _ q ds h. InOrder-Exited q ds h.0 h.1) (λ _ _ _. tt)
        (Post-both (λ _ q _. q.main_at ≡ returned (pos 0)) (λ _. InOrder) (λ _ _. Unit {0}) Any
          (play J text_of moves p cs)
          (play-Returns0 J text_of moves p cs fit over
            (Stage-Returns0 p.main_at p cs (Run-InOrder J target text_of r).stage) e)
          ((play-InOrder moves).apply p cs (Run-InOrder J target text_of r)))

-- The returns of `main`, with the manager and the calls they leave.
pub data MainReturns (J : JsonLib) (target : Target) (text_of : List ℕ → String)
    : Option Manager → List Call → ℤ → Type 0 where
  gives_up :
      (R : Rtc) (environment : Option String) (is_player : Bool) (number : String)
      {o : Option Manager} {cs : List Call}
      → begin J R target environment is_player number none [] ≡ done false o cs
      → MainReturns J target text_of o cs (negsuc 0)
  finishes :
      (p : Process) {cs : List Call} {code : ℤ}
      → Run J target text_of p cs
      → p.main_at ≡ returned code
      → MainReturns J target text_of p.manager cs code

module _ (J : JsonLib) (target : Target) (R : Rtc) where
  -- With no manager, or one that holds nothing, there is nothing left for its destructor to do.
  destroy-NothingHeld :
      (o : Option Manager) (cs : List Call)
      → NothingHeld o cs
      → with_instance (destroy_manager J R) o cs ≡ done tt o cs
  unfolding with_instance with_part destroy_manager
  destroy-NothingHeld none cs h = refl
  destroy-NothingHeld (some m) cs h = ap (embed some) (stop-idle J target R m cs h)

  Held-NothingHeld : (o : Option Manager) (cs : List Call) → Held IsIdle o cs → NothingHeld o cs
  Held-NothingHeld none cs h = absurd h
  Held-NothingHeld (some m) cs h = h

  -- `main` returns -1 or 0, and either way the destructor of the manager, which runs afterwards,
  -- makes no call, changes nothing and throws nothing.
  pub destroy_manager-after :
      {text_of : List ℕ → String} {o : Option Manager} {cs : List Call} {code : ℤ}
      → MainReturns J target text_of o cs code
      → ((code ≡ negsuc 0) ⊎ (code ≡ pos 0))
        × (with_instance (destroy_manager J R) o cs ≡ done tt o cs)
  destroy_manager-after {o = o} {cs = cs} (gives_up R' environment is_player number e) = (
    inl refl,
    destroy-NothingHeld o cs (
        subst (Post Begun (Held IsRunning)) e
          (begin-Begun J R' target environment is_player number)),
  )
  destroy_manager-after {text_of} {cs = cs} {code = code} (finishes p r at) =
      let s : Stage (returned code) p cs =
        subst (λ a. Stage a p cs) at (Run-InOrder J target text_of r).stage in
      (inr s.0, destroy-NothingHeld p.manager cs (Held-NothingHeld p.manager cs s.3))
