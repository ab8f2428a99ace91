-- ===== src/Log/Signal.antt =====
-- nativeSignalHandler of main.cpp, which writes a line with DBG.
use mathlib.Core.Path.{refl}
use ant_media_server_confere.Base.{ℕ, ◌≡◌, ap, inl, inr, Bool, true, false, some, List, ◌∷◌, ◌++◌}
use ant_media_server_confere.Base.Exec.{
  Exec, Outcome, done, thrown, pure, modify, gets, emit, observe, when, embed, bind_done,
  bind_thrown, ◌>>=◌, ◌>>◌,
}
use ant_media_server_confere.Platform.Int.{ℤ, pos, ltb_ℤ}
use ant_media_server_confere.Log.Bytes.{Bytes, bytes, int_number}
use ant_media_server_confere.Log.System.{
  SysCall, sys_lock, sys_time, ask, Os, LogState, Action, wait_or_take, lock,
}
use ant_media_server_confere.Log.Publish.{
  log_payload, publish_line, total_size, dbg_text, get_debug_level, dbg_log_and_publish, dbg,
}
use ant_media_server_confere.Log.Returns.Macro.{dbg-Says, Says}

-- g_appRunning, and the state of the log.
pub record App : Type 0 where
  pub app_running : Bool
  pub log : LogState

unfoldable pub on_log : {A : Type 0} → Action A → Exec App SysCall A
on_log m app cs = embed (λ l. record app { log = l }) (m app.log cs)

abbrev pub signal_text : ℤ → Bytes
signal_text sig =
    bytes "[signal] native system exiting via signal: " ++ int_number sig ++ bytes "\n"

module _ (os : Os) (storage dbg_file nmea_file : Bytes) where
  -- The line of the handler.
  abbrev pub dbg_signal : ℤ → Action (Unit {0})
  dbg_signal sig =
      dbg os storage dbg_file nmea_file (pos 0) (bytes "main.cpp") 20 (bytes "nativeSignalHandler")
        (signal_text sig)

  unfoldable pub native_signal_handler : ℤ → Exec App SysCall (Unit {0})
  unfolding on_log
  native_signal_handler sig = do
    on_log (dbg_signal sig)
    modify (λ app. record app { app_running = false })

  -- The size of the block that DBG asks for.
  abbrev pub signal_size : ℤ → ℕ
  signal_size sig = total_size (bytes "main.cpp") 20 (bytes "nativeSignalHandler") (signal_text sig)

  -- The handler has told the program to end, or it never returns and has told nothing.
  abbrev pub Handled : Bool → App → Outcome App SysCall (Unit {0}) → Type 0
  Handled false app o =
      (t : App) × (ds : List SysCall) × ((o ≡ done tt t ds) × (t.app_running ≡ false))
  Handled true app o = (ds : List SysCall) × (o ≡ thrown app ds)

  wait_lem :
      (held : Bool) (s : LogState) (cs : List SysCall)
      → held ≡ true
      → wait_or_take held s cs ≡ thrown s cs
  unfolding wait_or_take
  wait_lem true s cs e = refl
  wait_lem false s cs e = cc

  held_lem :
      (s : LogState) (cs : List SysCall) → s.locked ≡ true → lock s cs ≡ thrown s (sys_lock ∷ cs)
  unfolding lock emit gets ◌>>=◌
  held_lem s cs held = wait_lem s.locked s (sys_lock ∷ cs) held

  publish_held :
      (line : Bytes) (s : LogState) (cs : List SysCall)
      → s.locked ≡ true
      → dbg_log_and_publish os (some line) storage dbg_file s cs ≡ thrown s (sys_lock ∷ cs)
  unfolding dbg_log_and_publish
  publish_held line s cs held =
      bind_thrown lock
        (λ _. ask sys_time os.clock >>= λ clock.
          publish_line os (log_payload clock ++ line) storage dbg_file clock)
        s cs (held_lem s cs held)

  dbg_held :
      (level : ℤ) (file : Bytes) (line : ℕ) (function text : Bytes) (s : LogState)
      (cs : List SysCall)
      → ltb_ℤ s.debug_level level ≡ false
      → os.mallocs cs (total_size file line function text) ≡ true
      → s.locked ≡ true
      → dbg os storage dbg_file nmea_file level file line function text s cs
        ≡ thrown s (sys_lock ∷ cs)
  unfolding dbg get_debug_level gets observe when pure ◌>>=◌
  dbg_held level file line function text s cs high block held =
      rw (high, block)
        (bind_thrown
          (dbg_log_and_publish os (some (dbg_text file line function text)) storage dbg_file)
          (λ code. pure tt) s cs (publish_held (dbg_text file line function text) s cs held))

  Says-done :
      (level : ℤ) (file : Bytes) (line : ℕ) (function text : Bytes) (s : LogState)
      (cs : List SysCall) (o : Outcome LogState SysCall (Unit {0}))
      → Says os storage dbg_file nmea_file level file line function text s cs o
      → (t : LogState) × (ds : List SysCall) × (o ≡ done tt t ds)
  Says-done level file line function text s cs o (inl (why, e)) = (s, cs, e)
  Says-done level file line function text s cs o (inr (why, (code, t, ds, (f, e)))) = (t, ds, e)

  returned_lem :
      (sig : ℤ) (app : App) (t : LogState) (cs ds : List SysCall)
      → dbg_signal sig app.log cs ≡ done tt t ds
      → native_signal_handler sig app cs ≡ done tt (record app { app_running = false; log = t }) ds
  unfolding native_signal_handler modify
  returned_lem sig app t cs ds e =
      bind_done (on_log (dbg_signal sig)) (λ _. modify (λ a. record a { app_running = false })) app
        cs (ap (embed (λ l. record app { log = l })) e)

  stuck_lem :
      (sig : ℤ) (app : App) (cs ds : List SysCall)
      → dbg_signal sig app.log cs ≡ thrown app.log ds
      → native_signal_handler sig app cs ≡ thrown app ds
  unfolding native_signal_handler
  stuck_lem sig app cs ds e =
      bind_thrown (on_log (dbg_signal sig)) (λ _. modify (λ a. record a { app_running = false }))
        app cs (ap (embed (λ l. record app { log = l })) e)

  -- nativeSignalHandler, where gDebugLevel is not below 0 and malloc gives a block: if gDebugLock is free,
  -- it returns and g_appRunning is false; if the code that the signal interrupts holds gDebugLock, it
  -- never returns, and g_appRunning is as it was.
  pub native_signal_handler-Handled :
      (sig : ℤ) (held : Bool) (app : App) (cs : List SysCall)
      → app.log.locked ≡ held
      → ltb_ℤ app.log.debug_level (pos 0) ≡ false
      → os.mallocs cs (signal_size sig) ≡ true
      → Handled held app (native_signal_handler sig app cs)
  native_signal_handler-Handled sig false app cs unlocked high block =
      let (t, ds, e) = Says-done _ _ _ _ _ app.log cs _ (
        dbg-Says os storage dbg_file nmea_file (pos 0) (bytes "main.cpp") 20
          (bytes "nativeSignalHandler") (signal_text sig) app.log cs unlocked) in
      (record app { app_running = false; log = t }, ds, (returned_lem sig app t cs ds e, refl))
  native_signal_handler-Handled sig true app cs held high block = (
    sys_lock ∷ cs,
    stuck_lem sig app cs (sys_lock ∷ cs) (
        dbg_held (pos 0) (bytes "main.cpp") 20 (bytes "nativeSignalHandler") (signal_text sig)
          app.log cs high block held),
  )
