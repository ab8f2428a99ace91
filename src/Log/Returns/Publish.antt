-- ===== src/Log/Returns/Publish.antt =====
-- What DBGLogAndPublish and DataLogAndPublish do, from the lock on.
use mathlib.Core.Path.{refl, subst}
use ant_media_server_confere.Base.{
  ◌≡◌, sym, ◌∙◌, ◌⊎◌, inl, inr, Bool, true, false, some, List, ◌∷◌, ◌++◌, Bool-cases,
}
use ant_media_server_confere.Base.Exec.{
  Outcome, done, pure, gets, modify, emit, bind_done, ◌>>=◌, ◌>>◌,
}
use ant_media_server_confere.Platform.Int.{ℤ, pos, negsuc}
use ant_media_server_confere.Log.Bytes.{Bytes}
use ant_media_server_confere.Log.System.{
  append, SysCall, sys_open, sys_write, sys_close, sys_stderr, sys_time, sys_lock, sys_unlock,
  Clock, Os, LogState, Action, wait_or_take, lock, unlock, ask,
}
use ant_media_server_confere.Log.Publish.{
  log_payload, day_folder, mkdirs, append_line, publish_line, dbg_log_and_publish,
  data_log_and_publish,
}
use ant_media_server_confere.Log.Returns.{Ends-same}
use ant_media_server_confere.Log.Returns.Lines.{mkdirs-Stays}

abbrev pub taken : LogState → LogState
taken s = record s { locked = true }

abbrev pub free : LogState → LogState
free s = record s { locked = false }

wait_or_take_lem :
    (held : Bool) (s : LogState) (cs : List SysCall)
    → held ≡ false
    → wait_or_take held s cs ≡ done tt (taken s) cs
unfolding wait_or_take
wait_or_take_lem true s cs e = cc
wait_or_take_lem false s cs e = refl

lock_lem :
    (s : LogState) (cs : List SysCall)
    → s.locked ≡ false
    → lock s cs ≡ done tt (taken s) (sys_lock ∷ cs)
unfolding lock emit gets ◌>>=◌
lock_lem s cs e = wait_or_take_lem s.locked s (sys_lock ∷ cs) e

module _ (os : Os) where
  -- The time that is asked for.
  abbrev pub now : List SysCall → Clock
  now cs = os.clock (sys_time ∷ sys_lock ∷ cs)

  ask_lem :
      (s : LogState) (cs : List SysCall)
      → ask sys_time os.clock s cs ≡ done (os.clock (sys_time ∷ cs)) s (sys_time ∷ cs)
  unfolding ask
  ask_lem s cs = refl

  -- The line is in the file, or the file cannot be opened; `es` are the calls before.
  abbrev pub Appended :
      Bytes → Bytes → LogState → List SysCall → Outcome LogState SysCall ℤ → Type 0
  Appended file line s es o =
      ((os.opens (sys_open append file ∷ es) ≡ true)
        × (o
            ≡ done (pos 0) (free s)
                (sys_unlock ∷ sys_close file ∷ sys_write line file ∷ sys_open append file ∷ es)))
      ⊎ ((os.opens (sys_open append file ∷ es) ≡ false)
          × (o ≡ done (negsuc 1) (free s) (sys_unlock ∷ sys_open append file ∷ es)))

  -- From the lock on: the time is asked for, the line goes to stderr, the folder is made, and the line is
  -- appended.
  abbrev pub Published :
      Bytes → Bytes → Bytes → Clock → LogState → List SysCall → Outcome LogState SysCall ℤ → Type 0
  Published line path filename clock s cs o =
      (es : List SysCall) × ((mkdirs os (day_folder path clock) (taken s)
            (sys_stderr line ∷ sys_time ∷ sys_lock ∷ cs)
          ≡ done tt (taken s) es)
        × Appended (day_folder path clock ++ filename) line s es o)

  append_line-Appended :
      (file line : Bytes) (s : LogState) (es : List SysCall)
      → Appended file line s es (append_line os file line (taken s) es)
  unfolding append_line unlock ask emit modify pure ◌>>=◌
  append_line-Appended file line s es = elim (Bool-cases (os.opens (sys_open append file ∷ es))) [
    | inl opened ↦ rw opened (inl (refl, refl))
    | inr failed ↦ rw failed (inr (refl, refl))
  ]

  publish_line_lem :
      (line path filename : Bytes) (clock : Clock) (s : LogState) (cs es : List SysCall)
      → mkdirs os (day_folder path clock) s (sys_stderr line ∷ cs) ≡ done tt s es
      → publish_line os line path filename clock s cs
        ≡ append_line os (day_folder path clock ++ filename) line s es
  unfolding publish_line emit ◌>>=◌
  publish_line_lem line path filename clock s cs es e =
      bind_done (mkdirs os (day_folder path clock))
        (λ _. append_line os (day_folder path clock ++ filename) line) s (sys_stderr line ∷ cs) e

  publish_line-Published :
      (line path filename : Bytes) (clock : Clock) (s : LogState) (cs : List SysCall)
      → Published line path filename clock s cs
          (publish_line os line path filename clock (taken s) (sys_time ∷ sys_lock ∷ cs))
  publish_line-Published line path filename clock s cs =
      let folder : Bytes = day_folder path clock in
      let before : List SysCall = sys_stderr line ∷ sys_time ∷ sys_lock ∷ cs in
      let (a, es, e) =
        Ends-same (taken s) (mkdirs os folder (taken s) before)
          ((mkdirs-Stays (λ t. t ≡ taken s) os folder).stay (taken s) before refl) in
      (
        es,
        (
          e,
          subst (λ o. Appended (folder ++ filename) line s es o)
              (sym (
                publish_line_lem line path filename clock (taken s) (sys_time ∷ sys_lock ∷ cs) es
                  e))
              (append_line-Appended (folder ++ filename) line s es),
        ),
      )

  -- The lock and the time.
  from_lock :
      (m : Clock → Action ℤ) (s : LogState) (cs : List SysCall)
      → s.locked ≡ false
      → (lock >> (ask sys_time os.clock >>= m)) s cs
        ≡ m (os.clock (sys_time ∷ sys_lock ∷ cs)) (taken s) (sys_time ∷ sys_lock ∷ cs)
  from_lock m s cs unlocked =
      bind_done lock (λ _. ask sys_time os.clock >>= m) s cs (lock_lem s cs unlocked)
      ∙ bind_done (ask sys_time os.clock) m (taken s) (sys_lock ∷ cs)
          (ask_lem (taken s) (sys_lock ∷ cs))

  -- DBGLogAndPublish of a line, called while gDebugLock is free, takes the lock, asks for the time, writes
  -- the time and the line to stderr, calls mkdirs of the folder of the day, and then either appends the
  -- time and the line to the file in this folder and returns 0, or cannot open it and returns -2. It
  -- gives the lock back on both ways. This is so whatever the operating system answers.
  pub dbg_log_and_publish-Published :
      (dbg_str path filename : Bytes) (s : LogState) (cs : List SysCall)
      → s.locked ≡ false
      → Published
          (log_payload (now cs) ++ dbg_str)
          path
          filename
          (now cs)
          s
          cs
          (dbg_log_and_publish os (some dbg_str) path filename s cs)
  unfolding dbg_log_and_publish
  dbg_log_and_publish-Published dbg_str path filename s cs unlocked =
      subst (λ o. Published (log_payload (now cs) ++ dbg_str) path filename (now cs) s cs o)
        (sym (
          from_lock (λ clock. publish_line os (log_payload clock ++ dbg_str) path filename clock) s
            cs unlocked))
        (publish_line-Published (log_payload (now cs) ++ dbg_str) path filename (now cs) s cs)

  -- DataLogAndPublish of a line, called while gDebugLock is free, does the same with the line alone: it
  -- takes the lock, asks for the time, writes the line to stderr, calls mkdirs of the folder of the
  -- day, and then either appends the line to the file in this folder and returns 0, or cannot open it
  -- and returns -2. It gives the lock back on both ways.
  pub data_log_and_publish-Published :
      (dbg_str path filename : Bytes) (s : LogState) (cs : List SysCall)
      → s.locked ≡ false
      → Published dbg_str path filename
          (now cs)
          s
          cs
          (data_log_and_publish os (some dbg_str) path filename s cs)
  unfolding data_log_and_publish
  data_log_and_publish-Published dbg_str path filename s cs unlocked =
      subst (λ o. Published dbg_str path filename (now cs) s cs o)
        (sym (from_lock (λ clock. publish_line os dbg_str path filename clock) s cs unlocked))
        (publish_line-Published dbg_str path filename (now cs) s cs)
