-- ===== src/Log/Rounds.antt =====
-- What a backup and `touch` do to the log, as dbg_log sees it.
pub mod Leaves
use mathlib.Core.Path.{refl}
use ant_media_server_confere.Base.{
  ℕ, zero, suc, ◌≡◌, ap, ◌∙◌, ◌⊎◌, inl, inr, Bool, true, false, Option, none, some, List, [], ◌∷◌,
  ◌++◌, Bool-cases, if◌then◌else◌,
}
use ant_media_server_confere.Base.Exec.{
  Outcome, done, thrown, pure, emit, when, bind_done, ◌>>=◌, ◌>>◌,
}
use ant_media_server_confere.Platform.Int.{ℤ, pos, negsuc, below, ltb_ℤ}
use ant_media_server_confere.Log.Bytes.{Bytes, bytes, same}
use ant_media_server_confere.Log.Bytes.Decimal.{same_self}
use ant_media_server_confere.Log.System.{
  LogInfo, append, create_read_write, read_write, SysCall, sys_stat, sys_access, sys_fopen,
  sys_unlink, sys_open, sys_rename, sys_system, Os, LogState, Action, ask,
}
use ant_media_server_confere.Log.Backup.{
  log_info_path, dbg_log_size_max, max_log_file_num, size_or_zero, read_log_info, write_log_info,
  backup_as, backup_log_file, get_file_size,
}
use ant_media_server_confere.Log.Publish.{put_line, dbg_log}
use ant_media_server_confere.Log.Returns.{Ends-same}
use ant_media_server_confere.Log.Returns.Lines.{read_log_info-Stays}

abbrev pub touch_command : Bytes → Bytes
touch_command path = bytes "touch " ++ path

-- Whether the file is there, as far as the calls tell: it is gone after it is renamed, and there after
-- `touch`.
abbrev pub known : Bytes → List SysCall → Option Bool
known path [] = none
known path (sys_rename p q ∷ cs) =
    if same p path then some false else if same q path then none else known path cs
known path (sys_system command ∷ cs) = if same command (touch_command path) then some true else none
known path (sys_open append p ∷ cs) = if same p path then none else known path cs
known path (sys_open create_read_write p ∷ cs) = if same p path then none else known path cs
known path (sys_fopen p ∷ cs) = if same p path then none else known path cs
known path (sys_unlink p ∷ cs) = if same p path then none else known path cs
known path (_ ∷ cs) = known path cs

-- A file system on which the log can be renamed and made anew: access answers what is known, and a
-- file that `touch` makes is empty.
pub record Works (os : Os) (path : Bytes) : Type 0 where
  pub access_is :
      (b : Bool) (cs : List SysCall) → known path cs ≡ some b → os.access (sys_access path ∷ cs) ≡ b
  pub empty :
      (cs : List SysCall)
      → os.access (sys_access path ∷ cs) ≡ false
      → os.stat
          (sys_stat path ∷ sys_access path ∷ sys_system (touch_command path) ∷ sys_access path ∷ cs)
        ≡ some 0

module _ (os : Os) (path : Bytes) where
  -- The function returns, the state is as it was, and the file is known to be gone.
  abbrev pub Gone : Outcome LogState SysCall (Unit {0}) → LogState → Type 0
  Gone o s = (ds : List SysCall) × ((o ≡ done tt s ds) × (known path ds ≡ some false))

  write_log_info-Gone :
      (info : LogInfo) (s : LogState) (cs : List SysCall)
      → known path cs ≡ some false
      → Gone (write_log_info os path info s cs) s
  unfolding write_log_info when ask emit pure ◌>>=◌
  write_log_info-Gone info s cs e =
      elim (Bool-cases (os.opens (sys_open read_write (log_info_path path) ∷ cs))) [
        | inl opened ↦ rw opened (_, (refl, e))
        | inr failed ↦ rw failed (_, (refl, e))
      ]

  backup_as-Gone :
      (info : LogInfo) (s : LogState) (cs : List SysCall) → Gone (backup_as os path info s cs) s
  unfolding backup_as emit ◌>>=◌
  backup_as-Gone info s cs = elim (Bool-cases (ltb_ℤ info.count max_log_file_num)) [
    | inl fresh ↦ rw fresh (write_log_info-Gone _ s _ (rw (same_self path) refl))
    | inr full ↦ rw full (write_log_info-Gone _ s _ (rw (same_self path) refl))
  ]

  pub backup_log_file-Gone :
      (s : LogState) (cs : List SysCall) → Gone (backup_log_file os path s cs) s
  unfolding backup_log_file
  backup_log_file-Gone s cs =
      let (info, ds, e) =
        Ends-same s (read_log_info os path s cs)
          ((read_log_info-Stays (λ t. t ≡ s) os path).stay s cs refl) in
      let (es, (f, gone)) = backup_as-Gone info s ds in
      (es, (bind_done (read_log_info os path) (backup_as os path) s cs e ∙ f, gone))
