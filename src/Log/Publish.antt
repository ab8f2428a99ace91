-- ===== src/Log/Publish.antt =====
-- What appends a line to a log file: make_log_with_time, mkdirs, DBGLogAndPublish,
-- DataLogAndPublish, DBG_signal_safe, dbg_log, and the macros of Log.h.
pub mod Bounds
pub mod Folders
use ant_media_server_confere.Base.{
  ℕ, zero, suc, ◌+◌, ◌/◌, Bool, true, false, not, ◌&&◌, Option, none, some, List, [], ◌∷◌, ◌++◌,
  if◌then◌else◌,
}
use ant_media_server_confere.Base.Exec.{Exec, pure, gets, modify, emit, observe, when, ◌>>=◌, ◌>>◌}
use ant_media_server_confere.Platform.Int.{ℤ, pos, negsuc, ltb_ℤ, below}
use ant_media_server_confere.Log.Bytes.{Bytes, bytes, length, printed, number, two_digits, ◌=ℕ◌}
use ant_media_server_confere.Log.System.{
  append, SysCall, sys_access, sys_open, sys_write, sys_close, sys_mkdir, sys_fopen, sys_fputs,
  sys_fclose, sys_stderr, sys_system, sys_time, Clock, Os, LogState, Action, ask, lock, unlock,
}
use ant_media_server_confere.Log.Backup.{dbg_log_size_max, get_file_size, backup_log_file}

-- MAX_LOG_BUFFER_SIZE.
abbrev pub max_log_buffer_size : ℕ
max_log_buffer_size = 4096

unfoldable pub make_log_with_time : Clock → Bytes → Bytes
make_log_with_time clock dbg_str =
    printed max_log_buffer_size (bytes "[" ++ clock.stamp ++ bytes "] " ++ dbg_str)

-- "[%02d:%02d:%02d.%lu]<%s>" with an empty module name.
unfoldable pub log_payload : Clock → Bytes
log_payload clock = printed max_log_buffer_size (
    bytes "["
    ++ two_digits clock.hour
    ++ bytes ":"
    ++ two_digits clock.minute
    ++ bytes ":"
    ++ two_digits clock.second
    ++ bytes "."
    ++ number (clock.micros / 1000)
    ++ bytes "]<>")

-- "%d-%02d-%02d".
unfoldable pub day_name : Clock → Bytes
day_name clock =
    number clock.year ++ bytes "-" ++ two_digits clock.month ++ bytes "-" ++ two_digits clock.day

-- "%s/%s/%d-%02d-%02d/" with APP_LOG_PATH, in a buffer of 256 bytes.
unfoldable pub day_folder : Bytes → Clock → Bytes
day_folder path clock =
    printed 256 (path ++ bytes "/" ++ bytes "/APLog/" ++ bytes "/" ++ day_name clock ++ bytes "/")

module _ (os : Os) where
  unfoldable pub make_missing : Bytes → Action (Unit {0})
  unfolding when
  make_missing path = do
    there ← ask (sys_access path) os.access
    when (not there) (emit (sys_mkdir path))

  -- The loop of mkdirs: what stands in front of each '/'.
  unfoldable pub make_prefixes : Bytes → Bytes → Action (Unit {0})
  unfolding make_missing when pure
  make_prefixes before [] = pure tt
  make_prefixes before (c ∷ rest) = do
    when (c =ℕ b'/') (make_missing before)
    make_prefixes (before ++ c ∷ []) rest

  unfoldable pub mkdirs : Bytes → Action (Unit {0})
  unfolding make_prefixes make_missing when
  mkdirs muldir = do make_prefixes [] muldir; when (below 0 (length muldir)) (make_missing muldir)

  -- From `open` on: the line is appended, and the lock is given back.
  unfoldable pub append_line : Bytes → Bytes → Action ℤ
  unfolding unlock pure
  append_line path line = do
    opened ← ask (sys_open append path) os.opens
    if opened
        then (do emit (sys_write line path); emit (sys_close path); unlock; pure (pos 0))
        else (do unlock; pure (negsuc 1))

  -- The line goes to stderr and to the file of the day.
  unfoldable pub publish_line : Bytes → Bytes → Bytes → Clock → Action ℤ
  unfolding mkdirs append_line day_folder
  publish_line line path filename clock = do
    emit (sys_stderr line)
    mkdirs (day_folder path clock)
    append_line (day_folder path clock ++ filename) line

  unfoldable pub dbg_log_and_publish : Option Bytes → Bytes → Bytes → Action ℤ
  unfolding lock publish_line log_payload pure
  dbg_log_and_publish none path filename = pure (negsuc 0)
  dbg_log_and_publish (some dbg_str) path filename = do
    lock
    clock ← ask sys_time os.clock
    publish_line (log_payload clock ++ dbg_str) path filename clock

  unfoldable pub data_log_and_publish : Option Bytes → Bytes → Bytes → Action ℤ
  unfolding lock publish_line pure
  data_log_and_publish none path filename = pure (negsuc 0)
  data_log_and_publish (some dbg_str) path filename = do
    lock
    clock ← ask sys_time os.clock
    publish_line dbg_str path filename clock

  unfoldable pub dbg_signal_safe : Option Bytes → Bytes → Action ℤ
  unfolding when pure
  dbg_signal_safe none file_path = pure (negsuc 0)
  dbg_signal_safe (some dbg_str) file_path = do
    emit (sys_stderr dbg_str)
    size ← get_file_size os (some file_path)
    when (below dbg_log_size_max size) (backup_log_file os file_path)
    opened ← ask (sys_open append file_path) os.opens
    if opened
        then (do emit (sys_write dbg_str file_path); emit (sys_close file_path); pure (pos 0))
        else pure (negsuc 1)

  -- The branch of dbg_log that leaves the loop.
  unfoldable pub put_line : Bytes → Bytes → Action (Option ℤ)
  unfolding make_log_with_time pure
  put_line dbg_str file_path = do
    opened ← ask (sys_fopen file_path) os.fopens
    if opened
        then (do
          clock ← ask sys_time os.clock
          emit (sys_fputs (make_log_with_time clock dbg_str) file_path)
          emit (sys_fclose file_path)
          pure (some (pos 0)))
        else pure (some (negsuc 0))

  -- The loop of dbg_log; `none` means that the fuel ran out.
  unfoldable pub dbg_log : ℕ → Bytes → Bytes → Action (Option ℤ)
  unfolding put_line pure
  dbg_log zero dbg_str file_path = pure none
  dbg_log (suc fuel) dbg_str file_path = do
    there ← ask (sys_access file_path) os.access
    elim there [
      | true ↦ (do
        size ← get_file_size os (some file_path)
        elim (below dbg_log_size_max size) [
          | true ↦ (do backup_log_file os file_path; dbg_log fuel dbg_str file_path)
          | false ↦ put_line dbg_str file_path
        ])
      | false ↦ (do emit (sys_system (bytes "touch " ++ file_path)); dbg_log fuel dbg_str file_path)
    ]

unfoldable pub set_debug_level : ℤ → Action (Unit {0})
set_debug_level level = modify (λ s. record s { debug_level = level })

unfoldable pub get_debug_level : Action ℤ
get_debug_level = gets (λ s. s.debug_level)

-- "[%s:%d %s()]" with the name of the file, the line and the function.
unfoldable pub position : Bytes → ℕ → Bytes → Bytes
position file line function =
    bytes "[" ++ file ++ bytes ":" ++ number line ++ bytes " " ++ function ++ bytes "()]"

-- The sizes that DBG computes, with room for ": " and for the 0 at the end.
abbrev pub payload_size : Bytes → ℕ → Bytes → ℕ
payload_size file line function = 1 + length (position file line function ++ bytes ": ")

abbrev pub total_size : Bytes → ℕ → Bytes → Bytes → ℕ
total_size file line function text = payload_size file line function + (1 + length text)

-- What the two snprintf of DBG leave in the block.
unfoldable pub dbg_text : Bytes → ℕ → Bytes → Bytes → Bytes
dbg_text file line function text =
    printed (payload_size file line function) (position file line function)
    ++ printed (1 + length text) text

module _ (os : Os) (storage dbg_file nmea_file : Bytes) where
  -- The macros DBG and DBG_DATA at a level, with the formatted text.
  unfoldable pub dbg : ℤ → Bytes → ℕ → Bytes → Bytes → Action (Unit {0})
  unfolding get_debug_level when dbg_text pure
  dbg level file line function text = do
    current ← get_debug_level
    when (not (ltb_ℤ current level)) (do
      allocated ← observe (λ cs. os.mallocs cs (total_size file line function text))
      when allocated (do
        code ← dbg_log_and_publish os (some (dbg_text file line function text)) storage dbg_file
        pure tt))

  unfoldable pub dbg_data : ℤ → Bytes → Action (Unit {0})
  unfolding get_debug_level when pure
  dbg_data level text = do
    current ← get_debug_level
    when (not (ltb_ℤ current level)) (do
      allocated ← observe (λ cs. os.mallocs cs (1 + length text))
      when allocated (do
        code ← data_log_and_publish os (some (printed (1 + length text) text)) storage nmea_file
        pure tt))
