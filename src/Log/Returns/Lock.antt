-- ===== src/Log/Returns/Lock.antt =====
-- gDebugLock in DBGHandleOldLog.
use mathlib.Core.Path.{refl}
use ant_media_server_confere.Base.{◌≡◌, ◌⊎◌, inl, inr, Bool, true, false, List, ◌∷◌}
use ant_media_server_confere.Base.Exec.{
  Outcome, done, thrown, pure, gets, modify, emit, ◌>>=◌, ◌>>◌,
}
use ant_media_server_confere.Platform.Int.{ℤ, pos, negsuc}
use ant_media_server_confere.Log.Bytes.{Bytes}
use ant_media_server_confere.Log.System.{
  SysCall, sys_lock, Clock, Os, LogState, Action, ask, wait_or_take, lock, unlock,
}
use ant_media_server_confere.Log.Expired.{
  get_total_folder_size_mb, handle_old_with, dbg_handle_old_log,
}
use ant_media_server_confere.Log.Returns.{
  Ends, Returns, Stays, Stays-emit, Stays-ask, Stays-when, Returns-Stays, Returns-bind, Returns-if,
  Returns-result, Returns-modify,
}
use ant_media_server_confere.Log.Returns.Old.{handle_old_log-Stays, remove_the_oldest_log-Stays}

abbrev pub IsFree : LogState → Type 0
IsFree s = s.locked ≡ false

abbrev pub IsHeld : LogState → Type 0
IsHeld s = s.locked ≡ true

-- The result is one of the two codes, and the lock is free.
abbrev pub IsOver : ℤ → ℤ → ℤ → LogState → Type 0
IsOver ok failed code s = ((code ≡ ok) ⊎ (code ≡ failed)) × IsFree s

wait_or_take-Ends :
    (held : Bool) (s : LogState) (cs : List SysCall)
    → held ≡ false
    → Ends (λ _. IsHeld) (wait_or_take held s cs)
unfolding wait_or_take
wait_or_take-Ends true s cs e = cc
wait_or_take-Ends false s cs e = refl

lock-Returns : Returns IsFree lock (λ _. IsHeld)
unfolding lock gets emit ◌>>=◌
lock-Returns = record { at = λ s cs h. wait_or_take-Ends s.locked s (sys_lock ∷ cs) h }

unlock-Returns : Returns IsHeld unlock (λ _. IsFree)
unfolding unlock
unlock-Returns =
    Returns-bind _ _ (Returns-Stays (Stays-emit _)) (λ _. Returns-modify _ (λ s h. refl))

-- The two ends.
unlock_with :
    (ok failed code : ℤ)
    → ((code ≡ ok) ⊎ (code ≡ failed))
    → Returns IsHeld (unlock >> pure code) (IsOver ok failed)
unlock_with ok failed code e =
    Returns-bind _ _ unlock-Returns (λ _. Returns-result code (λ s h. (e, h)))

Ends-done :
    {Q : ℤ → LogState → Type 0} (o : Outcome LogState SysCall ℤ)
    → Ends Q o
    → (code : ℤ) × (t : LogState) × (ds : List SysCall) × ((o ≡ done code t ds) × Q code t)
Ends-done (done code t ds) h = (code, t, ds, (refl, h))
Ends-done (thrown t ds) h = absurd h

result_of :
    {m : Action ℤ} {P : LogState → Type 0} {Q : ℤ → LogState → Type 0} (s : LogState)
    (cs : List SysCall)
    → P s
    → Returns P m Q
    → (code : ℤ) × (t : LogState) × (ds : List SysCall) × ((m s cs ≡ done code t ds) × Q code t)
result_of {m} s cs h k = Ends-done (m s cs) (k.at s cs h)

module _ (os : Os) where
  -- From `handle_old_log` to `unlock`.
  get_total_folder_size_mb-Stays : (path : Bytes) → Stays IsHeld (get_total_folder_size_mb os path)
  unfolding get_total_folder_size_mb modify gets ask pure ◌>>=◌
  get_total_folder_size_mb-Stays path = record { stay = λ s cs h. h }

  handle_old_with-Returns :
      (path log_path : Bytes) (clock : Clock)
      → Returns IsHeld (handle_old_with os path log_path clock) (IsOver (pos 0) (negsuc 1))
  unfolding handle_old_with
  handle_old_with-Returns path log_path clock =
      Returns-bind _ _ (Returns-Stays (handle_old_log-Stays _ os log_path path clock)) (λ _.
        Returns-bind _ _ (Returns-Stays (get_total_folder_size_mb-Stays _)) (λ size.
          Returns-bind _ _
            (Returns-Stays (Stays-when _ _ (remove_the_oldest_log-Stays _ os log_path _)))
            (λ _.
              Returns-bind _ _ (Returns-Stays (Stays-emit _)) (λ _. unlock_with _ _ _ (inl refl)))))

  -- Whatever the operating system answers and whatever is in the folders, DBGHandleOldLog, called
  -- while gDebugLock is free, returns 0 or -2 and leaves gDebugLock free.
  pub dbg_handle_old_log-IsOver :
      (path filename : Bytes) (s : LogState) (cs : List SysCall)
      → IsFree s
      → (code : ℤ) × (t : LogState) × (ds : List SysCall) × ((dbg_handle_old_log os path filename s
              cs
            ≡ done code t ds)
          × IsOver (pos 0) (negsuc 1) code t)
  unfolding dbg_handle_old_log
  dbg_handle_old_log-IsOver path filename s cs free = result_of s cs free (
      Returns-bind _ _ (Returns-Stays (Stays-ask _ _)) (λ clock. Returns-bind _ _ lock-Returns (λ _.
        Returns-bind _ _ (Returns-Stays (Stays-ask _ _)) (λ opened.
          Returns-if opened _ _ (handle_old_with-Returns _ _ clock)
            (unlock_with _ _ _ (inr refl))))))
