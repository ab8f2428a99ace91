-- ===== src/Log/Rotation.antt =====
-- BackupLogFile on a file system that keeps the info file, call by call.
pub mod Last
use mathlib.Core.Path.{refl}
use ant_media_server_confere.Base.{
  ℕ, zero, suc, ◌+◌, ◌-◌, ◌<◌, ◌≤◌, ◌≡◌, ◌≢◌, sym, ap, ◌∙◌, ◌⊎◌, inl, inr, Bool, true, false, ◌||◌,
  Option, none, some, List, [], ◌∷◌, arith, Bool-cases, if◌then◌else◌,
}
use ant_media_server_confere.Base.Exec.{
  Outcome, done, thrown, state, calls, pure, emit, observe, when, bind_done, ◌>>=◌, ◌>>◌,
}
use ant_media_server_confere.Platform.Int.{ℤ, pos, below, ltb_ℤ, ◌+ℤ◌}
use ant_media_server_confere.Log.Bytes.{Bytes, same}
use ant_media_server_confere.Log.Bytes.Decimal.{same_self}
use ant_media_server_confere.Log.System.{
  LogInfo, read_write, create_read_write, SysCall, sys_stat, sys_open, sys_rename, sys_unlink,
  sys_write_info, sys_read_info, sys_close, Os, LogState, ask,
}
use ant_media_server_confere.Log.Backup.{
  backup_name, log_info_path, read_existing, create_info, read_or_create, read_log_info,
  write_log_info, backup_as, backup_log_file,
}
use ant_media_server_confere.Log.Names.{backup_name_inj, backup_name-log_info_path}
use ant_media_server_confere.Log.Replay.{
  remove, kept, stored, Persists, at_most_63, info_after, names, window,
}

-- The oldest of the kept names is removed, and no other.
pub remove-names :
    (path : Bytes) (k top i : ℕ)
    → i + suc k ≡ top
    → remove (backup_name path (pos i)) (names path (suc k) top) ≡ names path k top
remove-names path zero top i h =
    let e : i ≡ top - 1 = omega arith in rw (e, same_self (backup_name path (pos (top - 1)))) refl
remove-names path (suc k) top i h =
    rw (backup_name_inj path i (top - 1) (λ e. omega arith)) (
      ap (λ l. backup_name path (pos (top - 1)) ∷ l)
        (remove-names path k (top - 1) i (omega arith)))

info_small : (n : ℕ) → n ≤ 63 → info_after n ≡ record { count = pos n; oldest_index = pos 0 }
info_small n h = ground arith

info_large : (n i : ℕ) → i + 63 ≡ n → info_after n ≡ record { count = pos 63; oldest_index = pos i }
info_large n i h = ground arith

module _ (os : Os) (path : Bytes) (persists : Persists os (log_info_path path)) where
  pub write_log_info_lem :
      (info : LogInfo) (s : LogState) (cs : List SysCall)
      → write_log_info os path info s cs
        ≡ done tt s (
            sys_close (log_info_path path)
            ∷ sys_write_info info (log_info_path path)
            ∷ sys_open read_write (log_info_path path)
            ∷ cs)
  unfolding write_log_info ask when emit ◌>>=◌
  write_log_info_lem info s cs = simp (persists.opened read_write cs)

  pub existing_lem :
      (info : LogInfo) (size : Option ℕ) (s : LogState) (cs : List SysCall)
      → size ≢ none
      → stored (log_info_path path) cs ≡ some info
      → read_or_create os (log_info_path path) size s cs
        ≡ done info s (
            sys_close (log_info_path path)
            ∷ sys_read_info (log_info_path path)
            ∷ sys_open read_write (log_info_path path)
            ∷ cs)
  unfolding read_or_create read_existing ask emit pure ◌>>=◌
  existing_lem info none s cs there e = absurd (there refl)
  existing_lem info (some size) s cs there e = simp (
    persists.opened read_write cs,
    persists.read_back info (sys_open read_write (log_info_path path) ∷ cs) e,
  )

  pub create_lem :
      (s : LogState) (cs : List SysCall)
      → read_or_create os (log_info_path path) none s cs
        ≡ done (info_after 0) s (
            sys_close (log_info_path path)
            ∷ sys_write_info (info_after 0) (log_info_path path)
            ∷ sys_open create_read_write (log_info_path path)
            ∷ cs)
  unfolding read_or_create create_info ask when emit pure ◌>>=◌
  create_lem s cs = simp (persists.opened create_read_write cs)

  -- The calls that a backup makes after it has read the info file.
  abbrev pub moved : ℕ → List SysCall → List SysCall
  moved n cs =
      if below n 63
      then sys_rename path (backup_name path (pos n)) ∷ cs
      else sys_rename path (backup_name path (pos n))
        ∷ sys_unlink (backup_name path (pos (n - 63)))
        ∷ cs

  abbrev pub noted : LogInfo → List SysCall → List SysCall
  noted info cs =
      sys_close (log_info_path path)
      ∷ sys_write_info info (log_info_path path)
      ∷ sys_open read_write (log_info_path path)
      ∷ cs

  -- With fewer than 63 backups, the next one takes the next number.
  fresh_lem :
      (n : ℕ) (s : LogState) (cs : List SysCall)
      → below n 63 ≡ true
      → backup_as os path (record { count = pos n; oldest_index = pos 0 }) s cs
        ≡ done tt s (
            noted
              (record { count = pos (n + 1); oldest_index = pos 0 })
              (sys_rename path (backup_name path (pos n)) ∷ cs))
  unfolding backup_as emit ◌>>=◌
  fresh_lem n s cs small =
      rw small (write_log_info_lem (record { count = pos (n + 1); oldest_index = pos 0 }) s _)

  -- With 63 backups, the oldest goes and the next one takes the next number.
  full_lem :
      (i : ℕ) (s : LogState) (cs : List SysCall)
      → backup_as os path (record { count = pos 63; oldest_index = pos i }) s cs
        ≡ done tt s (
            noted
              (record { count = pos 63; oldest_index = pos (i + 1) })
              (sys_rename path (backup_name path (pos (i + 63)))
                ∷ sys_unlink (backup_name path (pos i))
                ∷ cs))
  unfolding backup_as emit ◌>>=◌
  full_lem i s cs = write_log_info_lem (record { count = pos 63; oldest_index = pos (i + 1) }) s _

  large_lem :
      (n i : ℕ) (info info' : LogInfo) (s : LogState) (cs : List SysCall)
      → i + 63 ≡ n
      → info ≡ record { count = pos 63; oldest_index = pos i }
      → info' ≡ record { count = pos 63; oldest_index = pos (i + 1) }
      → backup_as os path info s cs ≡ done tt s (noted info' (moved n cs))
  large_lem n i info info' s cs at e e' =
      let large : below n 63 ≡ false = ground arith in
      let low : n - 63 ≡ i = omega arith in rw (e, e', large, low, sym at) (full_lem i s cs)

  small_lem :
      (n : ℕ) (info info' : LogInfo) (s : LogState) (cs : List SysCall)
      → below n 63 ≡ true
      → info ≡ record { count = pos n; oldest_index = pos 0 }
      → info' ≡ record { count = pos (n + 1); oldest_index = pos 0 }
      → backup_as os path info s cs ≡ done tt s (noted info' (moved n cs))
  small_lem n info info' s cs small e e' = rw (e, e', small) (fresh_lem n s cs small)

  pub backup_as_lem :
      (n : ℕ) (s : LogState) (cs : List SysCall)
      → backup_as os path (info_after n) s cs ≡ done tt s (noted (info_after (n + 1)) (moved n cs))
  backup_as_lem n s cs = elim (Bool-cases (below n 63)) [
    | inl small ↦
        small_lem n (info_after n) (info_after (n + 1)) s cs small (info_small n (ground arith))
          (info_small (n + 1) (ground arith))
    | inr large ↦
        let at : n - 63 + 63 ≡ n = ground arith in
        large_lem n (n - 63) (info_after n) (info_after (n + 1)) s cs at (info_large n (n - 63) at)
          (info_large (n + 1) (n - 63 + 1) (omega (arith, at)))
  ]
