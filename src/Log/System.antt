-- ===== src/Log/System.antt =====
-- What Log.cpp calls of the operating system and of the C library, as a list of calls, and what they
-- answer. A file descriptor is known by the path that it was opened with.
use ant_media_server_confere.Base.{ℕ, Bool, true, false, Option, List, ◌∷◌}
use ant_media_server_confere.Base.Exec.{Exec, done, thrown, gets, modify, emit, ◌>>=◌, ◌>>◌}
use ant_media_server_confere.Platform.Int.{ℤ}
use ant_media_server_confere.Log.Bytes.{Bytes}

-- The struct LogInfo.
pub record LogInfo : Type 0 where
  pub count : ℤ
  pub oldest_index : ℤ

-- O_CREAT | O_RDWR | O_APPEND, O_CREAT | O_RDWR, and O_RDWR.
pub data OpenMode : Type 0 where
  append create_read_write read_write : OpenMode

pub data SysCall : Type 0 where
  sys_stat sys_access sys_fopen sys_opendir sys_closedir sys_unlink sys_mkdir sys_ftw :
      Bytes → SysCall
  sys_open : OpenMode → Bytes → SysCall
  sys_rename : Bytes → Bytes → SysCall
  -- What is written, and where.
  sys_write : Bytes → Bytes → SysCall
  sys_write_info : LogInfo → Bytes → SysCall
  sys_read_info sys_close sys_fclose : Bytes → SysCall
  sys_fputs : Bytes → Bytes → SysCall
  sys_stderr : Bytes → SysCall
  -- `system` with a command line.
  sys_system : Bytes → SysCall
  sys_lock sys_unlock sys_time sys_sync : SysCall

-- What readdir gives: the name and whether it is a regular file, a directory or something else.
pub data EntryType : Type 0 where
  regular directory other : EntryType

pub record Entry : Type 0 where
  pub name : Bytes
  pub type : EntryType

-- A time in UTC: the seconds since the epoch, its fields (the year as it is written, the month from
-- 1), tv_usec, and the text that strftime writes with "%b%e %T".
pub record Clock : Type 0 where
  pub seconds : ℕ
  pub micros : ℕ
  pub year : ℕ
  pub month : ℕ
  pub day : ℕ
  pub hour : ℕ
  pub minute : ℕ
  pub second : ℕ
  pub stamp : Bytes

-- Each answer is that to the newest call, and may depend on all calls.
pub record Os : Type 0 where
  -- stat: the size, or `none` if it does not return 0.
  pub stat : List SysCall → Option ℕ
  -- access returns 0.
  pub access : List SysCall → Bool
  -- open gives a descriptor, and fopen a stream.
  pub opens : List SysCall → Bool
  pub fopens : List SysCall → Bool
  -- What is in the variable after `read`, and in one that was not written to.
  pub info : List SysCall → LogInfo
  pub garbage : List SysCall → LogInfo
  -- opendir and the entries that readdir gives, or `none` for NULL.
  pub entries : List SysCall → Option (List Entry)
  -- malloc gives a block of this size.
  pub mallocs : List SysCall → ℕ → Bool
  -- The sizes that ftw visits.
  pub sizes : List SysCall → List ℕ
  pub clock : List SysCall → Clock
  -- timegm of a year, a month from 1 and a day, as they are written.
  pub timegm : ℤ → ℤ → ℤ → ℤ

-- gDebugLevel, whether gDebugLock is held, and gTotalFolderSize.
pub record LogState : Type 0 where
  pub debug_level : ℤ
  pub locked : Bool
  pub total_folder_size : ℕ

-- `thrown` stands for a function that never returns, since it waits for a lock that it holds.
abbrev pub Action : Type 0 → Type 0
Action A = Exec LogState SysCall A

-- pthread_mutex_lock of gDebugLock, and pthread_mutex_unlock.
unfoldable pub wait_or_take : Bool → Action (Unit {0})
wait_or_take true s cs = thrown s cs
wait_or_take false s cs = done tt (record s { locked = true }) cs

unfoldable pub lock : Action (Unit {0})
unfolding wait_or_take
lock = do emit sys_lock; held ← gets (λ s. s.locked); wait_or_take held

unfoldable pub unlock : Action (Unit {0})
unlock = do emit sys_unlock; modify (λ s. record s { locked = false })

-- A call and its answer.
unfoldable pub ask : {A : Type 0} → SysCall → (List SysCall → A) → Action A
ask c answer s cs = done (answer (c ∷ cs)) s (c ∷ cs)
