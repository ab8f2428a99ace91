-- ===== src/Log/Expired.antt =====
-- What removes old logs: RemoveTheOldestLog and GetTotalFolderSizeMb, and DBGHandleOldLog, which calls
-- all. The entries of a folder are those at the time of opendir.
use ant_media_server_confere.Base.{
  ℕ, ◌+◌, ◌/◌, ◌%◌, ◌^◌, Bool, true, false, not, ◌&&◌, Option, none, some, List, [], ◌∷◌, ◌++◌,
  if◌then◌else◌,
}
use ant_media_server_confere.Base.Exec.{pure, gets, modify, emit, when, ◌>>=◌, ◌>>◌}
use ant_media_server_confere.Platform.Int.{ℤ, pos, negsuc, ltb_ℤ, eqb_ℤ, below}
use ant_media_server_confere.Log.Bytes.{Bytes, bytes}
use ant_media_server_confere.Log.System.{
  append, sys_open, sys_close, sys_opendir, sys_closedir, sys_ftw, sys_system, sys_time, sys_sync,
  Entry, EntryType, regular, directory, other, Clock, Os, Action, ask, lock, unlock,
}
use ant_media_server_confere.Log.Publish.{day_folder}
use ant_media_server_confere.Log.Old.{midnight, get_debug_log_payload, dated, note, handle_old_log}

-- MAX_APLOG_RESERVED_SIZE.
abbrev pub max_aplog_reserved_size : ℕ
max_aplog_reserved_size = 212

-- An entry that RemoveTheOldestLog looks at, with its time.
abbrev pub dated_if : Os → EntryType → Bytes → Option ℤ
dated_if os regular name = dated os name
dated_if os directory name = dated os name
dated_if os other name = none

abbrev pub older : Bytes → Bytes → Option ℤ → ℤ × Bytes → ℤ × Bytes
older path name none best = best
older path name (some time) best = if ltb_ℤ time best.0 then (time, path ++ name) else best

-- The loop of RemoveTheOldestLog: theOldestTime and theOldestPath.
unfoldable pub find_oldest : Os → Bytes → List Entry → ℤ × Bytes → ℤ × Bytes
unfolding dated
find_oldest os path [] best = best
find_oldest os path (e ∷ entries) best =
    find_oldest os path entries (older path e.name (dated_if os e.type e.name) best)

abbrev pub is_nil : Bytes → Bool
is_nil [] = true
is_nil (c ∷ s) = false

module _ (os : Os) (log_path : Bytes) where
  -- What RemoveTheOldestLog does with the result of its loop.
  unfoldable pub remove_found : Bytes → Clock → ℤ × Bytes → Action (Unit {0})
  unfolding note get_debug_log_payload when
  remove_found path clock found =
      when (not (eqb_ℤ found.0 (midnight clock)) && not (is_nil found.1)) (do
        note log_path (get_debug_log_payload clock)
        note log_path (bytes "rm -rf " ++ found.1)
        emit (sys_system (bytes "rm -rf " ++ found.1))
        note log_path
            (bytes "[RemoveTheOldestLog]remove the oldest log path = " ++ path ++ bytes "\n"))

  unfoldable pub remove_oldest_in : Bytes → Clock → Option (List Entry) → Action (Unit {0})
  unfolding remove_found find_oldest note get_debug_log_payload
  remove_oldest_in path clock none = do
    note log_path (get_debug_log_payload clock)
    note log_path (bytes "[RemoveTheOldestLog]Failed to open " ++ path ++ bytes "\n")
  remove_oldest_in path clock (some entries) = do
    remove_found path clock (find_oldest os path entries (midnight clock, []))
    emit (sys_closedir path)
    emit sys_sync

  unfoldable pub remove_the_oldest_log : Bytes → Action (Unit {0})
  unfolding remove_oldest_in
  remove_the_oldest_log path = do
    clock ← ask sys_time os.clock
    entries ← ask (sys_opendir path) os.entries
    remove_oldest_in path clock entries

-- `gTotalFolderSize += sb->st_size` for each file, in 64 bits.
abbrev pub sum_sizes : ℕ → List ℕ → ℕ
sum_sizes total [] = total
sum_sizes total (size ∷ sizes) = sum_sizes ((total + size) % 2 ^ 64) sizes

module _ (os : Os) where
  -- The double 1e6 divides sizes below 2 ^ 53 exactly, and the conversion to size_t truncates.
  unfoldable pub get_total_folder_size_mb : Bytes → Action ℕ
  unfolding pure
  get_total_folder_size_mb path = do
    sizes ← ask (sys_ftw path) os.sizes
    modify (λ s. record s { total_folder_size = sum_sizes s.total_folder_size sizes })
    total ← gets (λ s. s.total_folder_size)
    modify (λ s. record s { total_folder_size = 0 })
    pure (total / 1000000)

  -- From the test on the descriptor on.
  unfoldable pub handle_old_with : Bytes → Bytes → Clock → Action ℤ
  unfolding handle_old_log get_total_folder_size_mb remove_the_oldest_log unlock when pure
  handle_old_with path log_path clock = do
    handle_old_log os log_path path clock
    size ← get_total_folder_size_mb (path ++ bytes "/APLog/")
    when (below max_aplog_reserved_size size)
        (remove_the_oldest_log os log_path (path ++ bytes "/APLog/"))
    emit (sys_close log_path)
    unlock
    pure (pos 0)

  unfoldable pub dbg_handle_old_log : Bytes → Bytes → Action ℤ
  unfolding handle_old_with lock unlock day_folder pure
  dbg_handle_old_log path filename = do
    clock ← ask sys_time os.clock
    lock
    opened ← ask (sys_open append (day_folder path clock ++ filename)) os.opens
    if opened
        then handle_old_with path (day_folder path clock ++ filename) clock
        else (do unlock; pure (negsuc 1))
