-- ===== src/Tests/LogLines.antt =====
-- The theorems on what is written to the logs, and on old logs, at concrete file systems.
use mathlib.Core.Path.{refl}
use ant_media_server_confere.Base.{
  ℕ, ◌+◌, ◌<◌, ◌≤◌, ◌≡◌, ◌⊎◌, arith, Bool, true, false, ◌||◌, Option, none, some, List, [], ◌∷◌,
  ◌++◌,
}
use ant_media_server_confere.Base.Exec.{done}
use ant_media_server_confere.Platform.Int.{ℤ, pos, negsuc}
use ant_media_server_confere.Log.Bytes.{Bytes, bytes, length, same, digits, number, two_digits}
use ant_media_server_confere.Log.Bytes.Decimal.{same_self}
use ant_media_server_confere.Log.System.{
  SysCall, sys_stat, sys_access, sys_mkdir, Entry, regular, directory, Os, LogState,
}
use ant_media_server_confere.Log.Publish.{
  day_name, mkdirs, dbg_log_and_publish, dbg_log, position, total_size, dbg_text, dbg,
}
use ant_media_server_confere.Log.Publish.Bounds.{dbg_text-fits}
use ant_media_server_confere.Log.Publish.Folders.{MakesFolders, mkdirs-Makes}
use ant_media_server_confere.Log.Scan.{scan_date}
use ant_media_server_confere.Log.Scan.Days.{scan_date-day_name}
use ant_media_server_confere.Log.Expired.{remove_oldest_in, dbg_handle_old_log}
use ant_media_server_confere.Log.Oldest.Removed.{RemovesOldest, remove_oldest_in-RemovesOldest}
use ant_media_server_confere.Log.Returns.Lock.{IsOver, dbg_handle_old_log-IsOver}
use ant_media_server_confere.Log.Returns.Macro.{Says, dbg-Says}
use ant_media_server_confere.Log.Returns.Dated.{
  InRange, time_text, day_of, folder_of, Dated, dbg_log_and_publish-Dated,
}
use ant_media_server_confere.Log.Rounds.{known, Works}
use ant_media_server_confere.Log.Rounds.Leaves.{dbg_log-Leaves, dbg_log-never}
use ant_media_server_confere.Log.Signal.{
  App, native_signal_handler, Handled, native_signal_handler-Handled,
}
use ant_media_server_confere.Tests.Log.{noon, plain_os, idle, log_path}

abbrev folder : Bytes
folder = bytes "/data/APLog/"

abbrev yesterday : Entry
yesterday = record { name = bytes "2022-09-13"; type = directory }

abbrev entries : List Entry
entries =
    record { name = bytes "2022-09-14"; type = directory }
    ∷ yesterday
    ∷ record { name = bytes "2022-09-13.tgz"; type = regular }
    ∷ record { name = bytes "notes"; type = regular }
    ∷ []

-- A folder that can be opened.
abbrev open_os : Os
open_os = record plain_os { entries = λ cs. some entries }

dbg_handle_old_log-IsOver_example :
    (code : ℤ) × (t : LogState) × (ds : List SysCall) × ((dbg_handle_old_log open_os
          (bytes "/data")
          (bytes "a.txt")
          idle
          []
        ≡ done code t ds)
      × IsOver (pos 0) (negsuc 1) code t)
dbg_handle_old_log-IsOver_example =
    dbg_handle_old_log-IsOver open_os (bytes "/data") (bytes "a.txt") idle [] refl

remove_oldest_in-RemovesOldest_example :
    RemovesOldest open_os folder log_path noon entries idle []
      (remove_oldest_in open_os log_path folder noon (some entries) idle [])
remove_oldest_in-RemovesOldest_example =
    remove_oldest_in-RemovesOldest open_os folder log_path noon entries idle [] refl

scan_date-day_name_example :
    scan_date (day_name noon ++ bytes ".tgz") ≡ some (pos 2022, pos 9, pos 14)
scan_date-day_name_example = scan_date-day_name noon (bytes ".tgz") refl

dbg_text-fits_example :
    (dbg_text (bytes "main.cpp") 12 (bytes "main") (bytes "hi")
      ≡ position (bytes "main.cpp") 12 (bytes "main") ++ bytes "hi")
    × (length (dbg_text (bytes "main.cpp") 12 (bytes "main") (bytes "hi"))
        < total_size (bytes "main.cpp") 12 (bytes "main") (bytes "hi"))
dbg_text-fits_example = dbg_text-fits (bytes "main.cpp") 12 (bytes "main") (bytes "hi")

date_length : length (day_name noon) ≡ 10
unfolding day_name number two_digits
date_length = refl

-- The log is there, and is too large until it is renamed.
abbrev is_there : Option Bool → Bool
is_there none = true
is_there (some b) = b

abbrev size_of : Option Bool → Option ℕ
size_of none = some 20971521
size_of (some b) = some 0

abbrev large_access : List SysCall → Bool
large_access (sys_access p ∷ cs) = is_there (known p cs)
large_access _ = false

abbrev large_stat : List SysCall → Option ℕ
large_stat (sys_stat p ∷ cs) = size_of (known p cs)
large_stat _ = none

abbrev large_os : Os
large_os = record plain_os { access = large_access; stat = large_stat }

large_os-Works : (p : Bytes) → Works large_os p
large_os-Works p = record {
  access_is = λ b cs e. rw e refl;
  empty = λ cs missing. rw (same_self (bytes "touch " ++ p)) refl;
}

dbg_log-Leaves_example :
    (code : ℤ) × (ds : List SysCall) × ((dbg_log large_os 3 (bytes "hi") log_path idle []
        ≡ done (some code) idle ds)
      × ((code ≡ pos 0) ⊎ (code ≡ negsuc 0)))
dbg_log-Leaves_example =
    dbg_log-Leaves large_os log_path (bytes "hi") idle [] (large_os-Works log_path)

dbg_log-never_example :
    (ds : List SysCall) × (dbg_log plain_os 1000 (bytes "hi") log_path idle [] ≡ done none idle ds)
dbg_log-never_example = dbg_log-never plain_os log_path (bytes "hi") 1000 idle [] (λ ds. refl)

-- A folder is there once it is made.
abbrev made_in : Bytes → List SysCall → Bool
made_in p [] = false
made_in p (sys_mkdir q ∷ cs) = same q p || made_in p cs
made_in p (_ ∷ cs) = made_in p cs

abbrev folders_access : List SysCall → Bool
folders_access (sys_access p ∷ cs) = made_in p cs
folders_access _ = false

abbrev folders_os : Os
folders_os = record plain_os { access = folders_access }

folders_os-MakesFolders : MakesFolders folders_os
folders_os-MakesFolders = record {
  made = λ parent name cs one above. rw (same_self (parent ++ (b'/' ∷ name))) refl;
  stays = λ p q cs there. there;
}

mkdirs-Makes_example :
    (ds : List SysCall) × ((mkdirs folders_os (bytes "/data//APLog//2022-09-14/") idle []
        ≡ done tt idle ds)
      × (folders_access (sys_access (bytes "/data//APLog//2022-09-14/") ∷ ds) ≡ true))
mkdirs-Makes_example =
    mkdirs-Makes folders_os folders_os-MakesFolders (bytes "data//APLog//2022-09-14/") idle []

noon-InRange : InRange noon
noon-InRange = record {
  hour_lt = omega arith;
  minute_lt = omega arith;
  second_lt = omega arith;
  micros_lt = omega arith;
}

date_fits : length (bytes "/data") + length (day_of noon) ≤ 245
unfolding number digits two_digits
date_fits = ground arith

dbg_log_and_publish-Dated_example :
    Dated folders_os
      (time_text noon ++ bytes "hello")
      (folder_of (bytes "/data") noon)
      (bytes "a.txt")
      idle
      []
      (dbg_log_and_publish folders_os
        (some (bytes "hello"))
        (bytes "/data")
        (bytes "a.txt")
        idle
        [])
dbg_log_and_publish-Dated_example =
    dbg_log_and_publish-Dated folders_os folders_os-MakesFolders (bytes "hello") (bytes "data")
      (bytes "a.txt") idle [] refl noon-InRange date_fits

dbg-Says_example :
    Says plain_os
      (bytes "/data")
      (bytes "a.txt")
      (bytes "n.txt")
      (pos 2)
      (bytes "main.cpp")
      12
      (bytes "main")
      (bytes "hi")
      idle
      []
      (dbg plain_os
        (bytes "/data")
        (bytes "a.txt")
        (bytes "n.txt")
        (pos 2)
        (bytes "main.cpp")
        12
        (bytes "main")
        (bytes "hi")
        idle
        [])
dbg-Says_example =
    dbg-Says plain_os (bytes "/data") (bytes "a.txt") (bytes "n.txt") (pos 2) (bytes "main.cpp") 12
      (bytes "main") (bytes "hi") idle [] refl

-- The signal comes while a line is written.
abbrev writing : App
writing = record { app_running = true; log = record idle { locked = true } }

native_signal_handler-Handled_example :
    Handled plain_os (bytes "/data") (bytes "a.txt") (bytes "n.txt") true writing (
      native_signal_handler plain_os
        (bytes "/data")
        (bytes "a.txt")
        (bytes "n.txt")
        (pos 15)
        writing
        [])
native_signal_handler-Handled_example =
    native_signal_handler-Handled plain_os (bytes "/data") (bytes "a.txt") (bytes "n.txt") (pos 15)
      true writing [] refl refl refl
