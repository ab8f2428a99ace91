-- ===== src/Tests/Log.antt =====
-- The theorems on the log files at concrete file systems.
use mathlib.Core.Path.{refl}
use ant_media_server_confere.Base.{
  ℕ, ◌+◌, ◌-◌, ◌*◌, ◌≡◌, ◌≢◌, inr, true, false, Option, none, some, List, [], ◌∷◌,
}
use ant_media_server_confere.Base.Exec.{done}
use ant_media_server_confere.Platform.Int.{ℤ, pos}
use ant_media_server_confere.Log.Bytes.{Bytes, bytes}
use ant_media_server_confere.Log.System.{
  LogInfo, SysCall, sys_stat, sys_read_info, Clock, Os, LogState,
}
use ant_media_server_confere.Log.Backup.{log_info_path}
use ant_media_server_confere.Log.Replay.{stored, Persists, Window}
use ant_media_server_confere.Log.Rotation.Last.{backups, backups-Window}

abbrev pub noon : Clock
noon = record {
  seconds = 1663156800;
  micros = 250000;
  year = 2022;
  month = 9;
  day = 14;
  hour = 12;
  minute = 0;
  second = 0;
  stamp = bytes "Sep14 12:00:00";
}

abbrev no_info : LogInfo
no_info = record { count = pos 0; oldest_index = pos 0 }

-- Days of 31 days a month.
abbrev time_gm : ℤ → ℤ → ℤ → ℤ
time_gm (pos year) (pos month) (pos day) = pos (((year - 1970) * 372 + month * 31 + day) * 86400)
time_gm year month day = pos 0

-- A file system on which everything can be opened.
abbrev pub plain_os : Os
plain_os = record {
  stat = λ cs. none;
  access = λ cs. false;
  opens = λ cs. true;
  fopens = λ cs. true;
  info = λ cs. no_info;
  garbage = λ cs. no_info;
  entries = λ cs. none;
  mallocs = λ cs size. true;
  sizes = λ cs. [];
  clock = λ cs. noon;
  timegm = time_gm;
}

abbrev pub idle : LogState
idle = record { debug_level = pos 3; locked = false; total_folder_size = 0 }

-- An info file keeps what was written to it.
abbrev has_size : Option LogInfo → Option ℕ
has_size none = none
has_size (some info) = some 8

abbrev or_zero : Option LogInfo → LogInfo
or_zero none = no_info
or_zero (some info) = info

abbrev keeper_stat : List SysCall → Option ℕ
keeper_stat (sys_stat p ∷ cs) = has_size (stored p cs)
keeper_stat _ = none

abbrev keeper_info : List SysCall → LogInfo
keeper_info (sys_read_info p ∷ cs) = or_zero (stored p cs)
keeper_info _ = no_info

abbrev keeper : Os
keeper = record plain_os { stat = keeper_stat; info = keeper_info }

has_size-there : (o : Option LogInfo) (info : LogInfo) → o ≡ some info → has_size o ≢ none
has_size-there none info e = λ _. cc
has_size-there (some i) info e = λ h. cc

or_zero-some : (o : Option LogInfo) (info : LogInfo) → o ≡ some info → or_zero o ≡ info
or_zero-some o info e = rw e refl

keeper-Persists : (p : Bytes) → Persists keeper p
keeper-Persists p = record {
  opened = λ mode cs. refl;
  found = λ info cs e. has_size-there (stored p cs) info e;
  read_back = λ info cs e. or_zero-some (stored p cs) info e;
}

abbrev pub log_path : Bytes
log_path = bytes "/data/gps.txt"

no_backup : Window keeper log_path 0 []
unfolding log_info_path
no_backup = record { info_is = inr (refl, refl); kept_is = refl }

backups-Window_example :
    (ds : List SysCall) × ((backups keeper log_path 70 idle [] ≡ done tt idle ds)
      × Window keeper log_path 70 ds)
backups-Window_example =
    backups-Window keeper log_path (keeper-Persists (log_info_path log_path)) 70 0 idle [] no_backup
