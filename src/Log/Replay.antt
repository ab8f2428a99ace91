-- ===== src/Log/Replay.antt =====
-- What a list of calls has left on the disk: the backups of a log and its info file.
use ant_media_server_confere.Base.{
  ℕ, zero, suc, ◌-◌, ◌≡◌, ◌≢◌, ◌⊎◌, true, ◌||◌, Option, none, some, List, [], ◌∷◌, if◌then◌else◌,
}
use ant_media_server_confere.Platform.Int.{pos, below}
use ant_media_server_confere.Log.Bytes.{Bytes, same}
use ant_media_server_confere.Log.System.{
  LogInfo, OpenMode, SysCall, sys_stat, sys_open, sys_rename, sys_unlink, sys_write_info,
  sys_read_info, Os,
}
use ant_media_server_confere.Log.Backup.{backup_name, log_info_path}

abbrev pub remove : Bytes → List Bytes → List Bytes
remove p [] = []
remove p (q ∷ l) = let rest = remove p l in if same p q then rest else q ∷ rest

-- The names that files were renamed to and that were not unlinked since, newest first.
abbrev pub kept : List SysCall → List Bytes
kept [] = []
kept (sys_rename p q ∷ cs) = q ∷ kept cs
kept (sys_unlink p ∷ cs) = remove p (kept cs)
kept (_ ∷ cs) = kept cs

-- What was last written to the info file, if nothing renamed or unlinked it since.
abbrev pub stored : Bytes → List SysCall → Option LogInfo
stored path [] = none
stored path (sys_write_info info p ∷ cs) = if same p path then some info else stored path cs
stored path (sys_rename p q ∷ cs) = if same p path || same q path then none else stored path cs
stored path (sys_unlink p ∷ cs) = if same p path then none else stored path cs
stored path (_ ∷ cs) = stored path cs

-- A file system that lets the info file be opened, and on which the file keeps what was written.
pub record Persists (os : Os) (info_path : Bytes) : Type 0 where
  pub opened :
      (mode : OpenMode) (cs : List SysCall) → os.opens (sys_open mode info_path ∷ cs) ≡ true
  pub found :
      (info : LogInfo) (cs : List SysCall)
      → stored info_path cs ≡ some info
      → os.stat (sys_stat info_path ∷ cs) ≢ none
  pub read_back :
      (info : LogInfo) (cs : List SysCall)
      → stored info_path cs ≡ some info
      → os.info (sys_read_info info_path ∷ cs) ≡ info

-- The info file after `n` backups, and how many of them are kept.
abbrev pub at_most_63 : ℕ → ℕ
at_most_63 n = if below n 63 then n else 63

abbrev pub info_after : ℕ → LogInfo
info_after n = record { count = pos (at_most_63 n); oldest_index = pos (n - 63) }

-- The names of the backups top - 1, top - 2, ..., `k` of them.
abbrev pub names : Bytes → ℕ → ℕ → List Bytes
names path zero top = []
names path (suc k) top = backup_name path (pos (top - 1)) ∷ names path k (top - 1)

-- The last backups of `n`, at most 63, under their numbers.
abbrev pub window : Bytes → ℕ → List Bytes
window path n = names path (at_most_63 n) n

-- After `n` backups: the info file says so, or there is none and n is 0; the last ones are kept.
pub record Window (os : Os) (path : Bytes) (n : ℕ) (cs : List SysCall) : Type 0 where
  pub info_is :
      (stored (log_info_path path) cs ≡ some (info_after n))
      ⊎ ((n ≡ 0) × (os.stat (sys_stat (log_info_path path) ∷ cs) ≡ none))
  pub kept_is : kept cs ≡ window path n
