-- ===== src/Log/Old.antt =====
-- What compresses old logs: HandleCurrentApLogFolder and HandleOldLog. The entries of a folder are those
-- at the time of opendir.
use ant_media_server_confere.Base.{
  ℕ, ◌-◌, ◌*◌, ◌%◌, not, ◌&&◌, Option, none, some, List, [], ◌∷◌, ◌++◌, if◌then◌else◌,
}
use ant_media_server_confere.Base.Exec.{pure, emit, when, ◌>>=◌, ◌>>◌}
use ant_media_server_confere.Platform.Int.{ℤ, pos, ltb_ℤ, eqb_ℤ, below}
use ant_media_server_confere.Log.Bytes.{Bytes, bytes, printed, int_number, two_digits, has_part}
use ant_media_server_confere.Log.Scan.{scan_date}
use ant_media_server_confere.Log.System.{
  sys_write, sys_opendir, sys_closedir, sys_system, sys_sync, Entry, EntryType, regular, directory,
  other, Clock, Os, Action, ask,
}
use ant_media_server_confere.Log.Backup.{dbg_log_size_max, get_file_size, backup_log_file}

-- SEC_PER_DAY.
abbrev pub sec_per_day : ℕ
sec_per_day = 24 * 3600

-- Midnight of the day.
abbrev pub midnight : Clock → ℤ
midnight clock = pos (clock.seconds - clock.seconds % sec_per_day)

-- "[%02d:%02d:%02d]<%s>" with an empty module name, in a buffer of 128 bytes.
unfoldable pub get_debug_log_payload : Clock → Bytes
unfolding two_digits
get_debug_log_payload clock = printed 128 (
    bytes "["
    ++ two_digits clock.hour
    ++ bytes ":"
    ++ two_digits clock.minute
    ++ bytes ":"
    ++ two_digits clock.second
    ++ bytes "]<>")

-- timegm of the date in a name, if there is one.
abbrev pub time_of : (ℤ → ℤ → ℤ → ℤ) → Option (ℤ × ℤ × ℤ) → Option ℤ
time_of timegm none = none
time_of timegm (some (year, month, day)) = some (timegm year month day)

unfoldable pub dated : Os → Bytes → Option ℤ
unfolding scan_date
dated os name = time_of os.timegm (scan_date name)

-- `write(logFd, ...)`.
unfoldable pub note : Bytes → Bytes → Action (Unit {0})
note log_path line = emit (sys_write line log_path)

module _ (os : Os) (log_path : Bytes) where
  -- A command line is run, and written to the log before or after.
  unfoldable pub compress : Bytes → Action (Unit {0})
  unfolding note
  compress new_path = do
    note log_path (bytes "Compress " ++ new_path ++ bytes "\n")
    emit (sys_system (bytes "tar zcf " ++ new_path ++ bytes ".tgz " ++ new_path ++ bytes "\n"))
    note log_path (bytes "tar zcf " ++ new_path ++ bytes ".tgz " ++ new_path ++ bytes "\n")
    emit (sys_system (bytes "rm -rf " ++ new_path ++ bytes "\n"))
    note log_path (bytes "rm -rf " ++ new_path ++ bytes "\n")

  unfoldable pub backup_if_large : Bytes → Action (Unit {0})
  unfolding note when
  backup_if_large new_path = do
    size ← get_file_size os (some new_path)
    when (below dbg_log_size_max size) (do
      note log_path (bytes "file " ++ new_path ++ bytes " need compress\n")
      backup_log_file os new_path)

  -- The body of the loop of HandleCurrentApLogFolder.
  unfoldable pub handle_file : Bytes → EntryType → Bytes → Action (Unit {0})
  unfolding compress backup_if_large has_part pure
  handle_file folder_path regular name =
      if has_part (bytes ".txt-") name && not (has_part (bytes ".tgz") name)
      then compress (folder_path ++ bytes "/" ++ name)
      else backup_if_large (folder_path ++ bytes "/" ++ name)
  handle_file folder_path directory name = pure tt
  handle_file folder_path other name = pure tt

  unfoldable pub handle_files : Bytes → List Entry → Action (Unit {0})
  unfolding handle_file pure
  handle_files folder_path [] = pure tt
  handle_files folder_path (e ∷ entries) = do
    handle_file folder_path e.type e.name
    handle_files folder_path entries

  unfoldable pub handle_current_in : Bytes → Option (List Entry) → Action (Unit {0})
  unfolding handle_files note
  handle_current_in folder_path none =
      note log_path (bytes "Failed to open " ++ folder_path ++ bytes "\n")
  handle_current_in folder_path (some entries) = do
    handle_files folder_path entries
    emit (sys_closedir folder_path)

  unfoldable pub handle_current_ap_log_folder : Bytes → Action (Unit {0})
  unfolding handle_current_in
  handle_current_ap_log_folder folder_path = do
    entries ← ask (sys_opendir folder_path) os.entries
    handle_current_in folder_path entries

  -- A folder of an earlier day is packed and removed.
  unfoldable pub pack_folder : Bytes → Bytes → ℤ → Clock → Action (Unit {0})
  unfolding note get_debug_log_payload int_number
  pack_folder ap_log_folder name folder_time clock = do
    note log_path (get_debug_log_payload clock)
    note log_path (
        bytes "tar zcf "
        ++ ap_log_folder
        ++ name
        ++ bytes ".tgz -C "
        ++ ap_log_folder
        ++ bytes " "
        ++ name
        ++ bytes "\n")
    note log_path (
        printed 512 (
          bytes "CurT = "
          ++ int_number (midnight clock)
          ++ bytes ", FodlerT = "
          ++ int_number folder_time
          ++ bytes ", Folder Name = "
          ++ name
          ++ bytes "\n"))
    emit (
        sys_system (
          bytes "tar zcf "
          ++ ap_log_folder
          ++ name
          ++ bytes ".tgz -C "
          ++ ap_log_folder
          ++ bytes " "
          ++ name
          ++ bytes "\n"))
    note log_path (get_debug_log_payload clock)
    note log_path (bytes "rm -rf " ++ ap_log_folder ++ name ++ bytes "\n")
    emit (sys_system (bytes "rm -rf " ++ ap_log_folder ++ name ++ bytes "\n"))
    emit sys_sync

  -- A folder by its time: older than today, today, or later.
  unfoldable pub handle_folder : Bytes → Bytes → Option ℤ → Clock → Action (Unit {0})
  unfolding pack_folder handle_current_ap_log_folder pure
  handle_folder ap_log_folder name none clock = pure tt
  handle_folder ap_log_folder name (some folder_time) clock =
      if ltb_ℤ folder_time (midnight clock)
      then pack_folder ap_log_folder name folder_time clock
      else if eqb_ℤ (midnight clock) folder_time
      then handle_current_ap_log_folder (ap_log_folder ++ name)
      else pure tt

  unfoldable pub handle_entry : Bytes → EntryType → Bytes → Clock → Action (Unit {0})
  unfolding handle_folder dated pure
  handle_entry ap_log_folder directory name clock =
      handle_folder ap_log_folder name (dated os name) clock
  handle_entry ap_log_folder regular name clock = pure tt
  handle_entry ap_log_folder other name clock = pure tt

  unfoldable pub handle_entries : Bytes → List Entry → Clock → Action (Unit {0})
  unfolding handle_entry pure
  handle_entries ap_log_folder [] clock = pure tt
  handle_entries ap_log_folder (e ∷ entries) clock = do
    handle_entry ap_log_folder e.type e.name clock
    handle_entries ap_log_folder entries clock

  unfoldable pub handle_old_in : Bytes → Option (List Entry) → Clock → Action (Unit {0})
  unfolding handle_entries note get_debug_log_payload
  handle_old_in path none clock = do
    note log_path (get_debug_log_payload clock)
    note log_path (bytes "[HandleOldLog]Failed to open " ++ path ++ bytes "\n")
  handle_old_in path (some entries) clock = do
    handle_entries (path ++ bytes "/APLog/") entries clock
    emit (sys_closedir (path ++ bytes "/APLog/"))

  unfoldable pub handle_old_log : Bytes → Clock → Action (Unit {0})
  unfolding handle_old_in
  handle_old_log path clock = do
    entries ← ask (sys_opendir (path ++ bytes "/APLog/")) os.entries
    handle_old_in path entries clock
