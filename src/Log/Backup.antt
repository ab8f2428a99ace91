-- ===== src/Log/Backup.antt =====
-- get_file_size, ReadLogInfo, WriteLogInfo and BackupLogFile, which keeps the last log files under
-- numbered names.
use ant_media_server_confere.Base.{
  ℕ, ◌+◌, ◌-◌, ◌^◌, Bool, true, false, Option, none, some, ◌++◌, if◌then◌else◌,
}
use ant_media_server_confere.Base.Exec.{pure, emit, observe, when, ◌>>=◌, ◌>>◌}
use ant_media_server_confere.Platform.Int.{ℤ, pos, ltb_ℤ, ◌+ℤ◌, below}
use ant_media_server_confere.Log.Bytes.{Bytes, bytes, take, find_last_of, int_number}
use ant_media_server_confere.Log.System.{
  LogInfo, read_write, create_read_write, sys_stat, sys_open, sys_write_info, sys_read_info,
  sys_close, sys_rename, sys_unlink, Os, Action, ask,
}

abbrev pub max_log_file_num : ℤ
max_log_file_num = pos 63

-- (0x1 << 20) * 20, 20 MB.
abbrev pub dbg_log_size_max : ℕ
dbg_log_size_max = 20971520

-- The part that ReadLogInfo and WriteLogInfo share. `pos == npos || (slash_pos != npos && pos <
-- slash_pos)`: the file name has no extension.
unfoldable pub without_extension : Option ℕ → Option ℕ → Bool
without_extension none slash_pos = true
without_extension (some i) none = false
without_extension (some i) (some slash) = below i slash

-- `substr(0, pos + 1)` where there is an extension, and the whole path with "." where there is none.
unfoldable pub info_stem : Bytes → Option ℕ → Option ℕ → Bytes
info_stem path none slash_pos = path ++ bytes "."
info_stem path (some i) slash_pos =
    if without_extension (some i) slash_pos then path ++ bytes "." else take (i + 1) path

unfoldable pub log_info_path : Bytes → Bytes
unfolding info_stem without_extension find_last_of
log_info_path path =
    info_stem path (find_last_of b'.' path) (find_last_of b'/' path) ++ bytes "logInfo"

abbrev new_log_info : LogInfo
new_log_info = record { count = pos 0; oldest_index = pos 0 }

unfoldable pub backup_name : Bytes → ℤ → Bytes
unfolding int_number
backup_name path index = path ++ bytes "-" ++ int_number index

-- 0 for a failure of `stat`.
unfoldable pub size_or_zero : Option ℕ → ℕ
size_or_zero none = 0
size_or_zero (some size) = size

module _ (os : Os) where
  -- Where the file is there and cannot be opened, the result is what was in the variable.
  unfoldable pub read_existing : Bytes → Action LogInfo
  read_existing info_path = do
    opened ← ask (sys_open read_write info_path) os.opens
    if opened
        then (do
          info ← ask (sys_read_info info_path) os.info
          emit (sys_close info_path)
          pure info)
        else observe os.garbage

  unfoldable pub create_info : Bytes → Action LogInfo
  unfolding when
  create_info info_path = do
    opened ← ask (sys_open create_read_write info_path) os.opens
    when opened (do emit (sys_write_info new_log_info info_path); emit (sys_close info_path))
    pure new_log_info

  unfoldable pub read_or_create : Bytes → Option ℕ → Action LogInfo
  unfolding read_existing create_info
  read_or_create info_path none = create_info info_path
  read_or_create info_path (some size) = read_existing info_path

  unfoldable pub read_log_info : Bytes → Action LogInfo
  unfolding read_or_create log_info_path
  read_log_info orig_file_path = do
    exists ← ask (sys_stat (log_info_path orig_file_path)) os.stat
    read_or_create (log_info_path orig_file_path) exists

  unfoldable pub write_log_info : Bytes → LogInfo → Action (Unit {0})
  unfolding when log_info_path
  write_log_info orig_file_path info = do
    opened ← ask (sys_open read_write (log_info_path orig_file_path)) os.opens
    when opened (do
      emit (sys_write_info info (log_info_path orig_file_path))
      emit (sys_close (log_info_path orig_file_path)))

  -- From the test on the count on.
  unfoldable pub backup_as : Bytes → LogInfo → Action (Unit {0})
  backup_as path info =
      if ltb_ℤ info.count max_log_file_num
      then (do
        emit (sys_rename path (backup_name path info.count))
        write_log_info path (record info { count = info.count +ℤ pos 1 }))
      else (do
        emit (sys_unlink (backup_name path info.oldest_index))
        emit (sys_rename path (backup_name path (info.oldest_index +ℤ info.count)))
        write_log_info path (record info { oldest_index = info.oldest_index +ℤ pos 1 }))

  unfoldable pub backup_log_file : Bytes → Action (Unit {0})
  unfolding read_log_info backup_as
  backup_log_file path = do info ← read_log_info path; backup_as path info

  -- NULL gives (unsigned long)-1.
  unfoldable pub get_file_size : Option Bytes → Action ℕ
  unfolding size_or_zero
  get_file_size none = pure (2 ^ 64 - 1)
  get_file_size (some path) = do size ← ask (sys_stat path) os.stat; pure (size_or_zero size)

unfoldable pub mark_debug_file : Bytes → Action (Unit {0})
mark_debug_file filename = emit (sys_rename filename (filename ++ bytes ".ReadyToUpload"))

unfoldable pub remove_debug_file : Bytes → Action (Unit {0})
remove_debug_file filename = emit (sys_unlink filename)
