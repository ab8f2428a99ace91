-- ===== src/Log/Returns/Old.antt =====
-- The functions that compress and remove old logs, and the lock.
use ant_media_server_confere.Base.{Option, none, some, List, [], ◌∷◌}
use ant_media_server_confere.Platform.Int.{ℤ}
use ant_media_server_confere.Log.Bytes.{Bytes}
use ant_media_server_confere.Log.System.{
  Entry, EntryType, regular, directory, other, Clock, Os, LogState,
}
use ant_media_server_confere.Log.Old.{
  compress, backup_if_large, handle_file, handle_files, handle_current_in,
  handle_current_ap_log_folder, pack_folder, handle_folder, handle_entry, handle_entries,
  handle_old_in, handle_old_log,
}
use ant_media_server_confere.Log.Expired.{remove_found, remove_oldest_in, remove_the_oldest_log}
use ant_media_server_confere.Log.Returns.{Stays, stays_rules, Stays-emit, Stays-pure}
use ant_media_server_confere.Log.Returns.Lines.{backup_log_file-Stays, get_file_size-Stays}

module _ (P : LogState → Type 0) (os : Os) (log_path : Bytes) where
  compress-Stays : (p : Bytes) → Stays P (compress os log_path p)
  unfolding compress
  compress-Stays p = search stays_rules

  backup_if_large-Stays : (p : Bytes) → Stays P (backup_if_large os log_path p)
  unfolding backup_if_large
  backup_if_large-Stays p = search (stays_rules, backup_log_file-Stays, get_file_size-Stays)

  handle_file-Stays :
      (folder : Bytes) (type : EntryType) (name : Bytes)
      → Stays P (handle_file os log_path folder type name)
  unfolding handle_file
  handle_file-Stays folder regular name =
      search (stays_rules, compress-Stays, backup_if_large-Stays)
  handle_file-Stays folder directory name = Stays-pure _
  handle_file-Stays folder other name = Stays-pure _

  handle_files-Stays :
      (folder : Bytes) (entries : List Entry) → Stays P (handle_files os log_path folder entries)
  unfolding handle_files
  handle_files-Stays folder [] = Stays-pure _
  handle_files-Stays folder (e ∷ entries) =
      let later = handle_files-Stays folder entries in search (stays_rules, handle_file-Stays)

  handle_current_in-Stays :
      (folder : Bytes) (entries : Option (List Entry))
      → Stays P (handle_current_in os log_path folder entries)
  unfolding handle_current_in
  handle_current_in-Stays folder none = Stays-emit _
  handle_current_in-Stays folder (some entries) = search (stays_rules, handle_files-Stays)

  handle_current_ap_log_folder-Stays :
      (folder : Bytes) → Stays P (handle_current_ap_log_folder os log_path folder)
  unfolding handle_current_ap_log_folder
  handle_current_ap_log_folder-Stays folder = search (stays_rules, handle_current_in-Stays)

  pack_folder-Stays :
      (folder name : Bytes) (time : ℤ) (clock : Clock)
      → Stays P (pack_folder os log_path folder name time clock)
  unfolding pack_folder
  pack_folder-Stays folder name time clock = search stays_rules depth 12

  handle_folder-Stays :
      (folder name : Bytes) (time : Option ℤ) (clock : Clock)
      → Stays P (handle_folder os log_path folder name time clock)
  unfolding handle_folder
  handle_folder-Stays folder name none clock = Stays-pure _
  handle_folder-Stays folder name (some time) clock =
      search (stays_rules, pack_folder-Stays, handle_current_ap_log_folder-Stays)

  handle_entry-Stays :
      (folder : Bytes) (type : EntryType) (name : Bytes) (clock : Clock)
      → Stays P (handle_entry os log_path folder type name clock)
  unfolding handle_entry
  handle_entry-Stays folder directory name clock = handle_folder-Stays folder name _ clock
  handle_entry-Stays folder regular name clock = Stays-pure _
  handle_entry-Stays folder other name clock = Stays-pure _

  handle_entries-Stays :
      (folder : Bytes) (entries : List Entry) (clock : Clock)
      → Stays P (handle_entries os log_path folder entries clock)
  unfolding handle_entries
  handle_entries-Stays folder [] clock = Stays-pure _
  handle_entries-Stays folder (e ∷ entries) clock =
      let later = handle_entries-Stays folder entries clock in
      search (stays_rules, handle_entry-Stays)

  handle_old_in-Stays :
      (path : Bytes) (entries : Option (List Entry)) (clock : Clock)
      → Stays P (handle_old_in os log_path path entries clock)
  unfolding handle_old_in
  handle_old_in-Stays path none clock = search stays_rules
  handle_old_in-Stays path (some entries) clock = search (stays_rules, handle_entries-Stays)

  pub handle_old_log-Stays :
      (path : Bytes) (clock : Clock) → Stays P (handle_old_log os log_path path clock)
  unfolding handle_old_log
  handle_old_log-Stays path clock = search (stays_rules, handle_old_in-Stays)

  remove_found-Stays :
      (path : Bytes) (clock : Clock) (found : ℤ × Bytes)
      → Stays P (remove_found os log_path path clock found)
  unfolding remove_found
  remove_found-Stays path clock found = search stays_rules

  remove_oldest_in-Stays :
      (path : Bytes) (clock : Clock) (entries : Option (List Entry))
      → Stays P (remove_oldest_in os log_path path clock entries)
  unfolding remove_oldest_in
  remove_oldest_in-Stays path clock none = search stays_rules
  remove_oldest_in-Stays path clock (some entries) = search (stays_rules, remove_found-Stays)

  pub remove_the_oldest_log-Stays :
      (path : Bytes) → Stays P (remove_the_oldest_log os log_path path)
  unfolding remove_the_oldest_log
  remove_the_oldest_log-Stays path = search (stays_rules, remove_oldest_in-Stays)
