-- ===== src/Log/Rotation/Last.antt =====
-- The files that are kept after a number of backups.
use mathlib.Core.Path.{refl}
use ant_media_server_confere.Base.{
  ℕ, zero, suc, ◌+◌, ◌-◌, ◌≡◌, sym, ◌∙◌, inl, inr, true, false, none, List, ◌∷◌, arith, Bool-cases,
}
use ant_media_server_confere.Base.Exec.{done, pure, bind_done, ◌>>=◌, ◌>>◌}
use ant_media_server_confere.Platform.Int.{pos, below}
use ant_media_server_confere.Log.Bytes.{Bytes}
use ant_media_server_confere.Log.Bytes.Decimal.{same_self}
use ant_media_server_confere.Log.System.{
  create_read_write, SysCall, sys_close, sys_write_info, sys_open, sys_stat, Os, LogState, Action,
  ask,
}
use ant_media_server_confere.Log.Backup.{
  backup_name, log_info_path, read_log_info, backup_as, backup_log_file,
}
use ant_media_server_confere.Log.Replay.{
  remove, kept, Persists, at_most_63, info_after, names, window, Window,
}
use ant_media_server_confere.Log.Rotation.{
  remove-names, existing_lem, create_lem, moved, noted, backup_as_lem,
}

names-suc :
    (path : Bytes) (k n m : ℕ)
    → m ≡ suc k
    → names path m (n + 1) ≡ backup_name path (pos n) ∷ names path k n
names-suc path k n m e = let back : n + 1 - 1 ≡ n = omega arith in rw (e, back) refl

window_small :
    (path : Bytes) (n : ℕ)
    → below n 63 ≡ true
    → window path (n + 1) ≡ backup_name path (pos n) ∷ window path n
window_small path n small =
    let here : at_most_63 n ≡ n = ground arith in
    rw here (names-suc path n n (at_most_63 (n + 1)) (ground arith))

window_large :
    (path : Bytes) (n : ℕ)
    → below n 63 ≡ false
    → window path (n + 1)
      ≡ backup_name path (pos n) ∷ remove (backup_name path (pos (n - 63))) (window path n)
window_large path n large =
    let here : at_most_63 n ≡ 63 = ground arith in
    let next : at_most_63 (n + 1) ≡ 63 = ground arith in
    rw (here, next, remove-names path 62 n (n - 63) (ground arith)) (names-suc path 62 n 63 refl)

-- BackupLogFile, called `k` times.
unfoldable pub backups : Os → Bytes → ℕ → Action (Unit {0})
backups os path zero = pure tt
backups os path (suc k) = backup_log_file os path >> backups os path k

module _ (os : Os) (path : Bytes) (persists : Persists os (log_info_path path)) where
  -- The calls that make the info file.
  abbrev made : List SysCall → List SysCall
  made cs =
      sys_close (log_info_path path)
      ∷ sys_write_info (info_after 0) (log_info_path path)
      ∷ sys_open create_read_write (log_info_path path)
      ∷ sys_stat (log_info_path path)
      ∷ cs

  fresh_lem :
      (n : ℕ) (s : LogState) (cs : List SysCall)
      → n ≡ 0
      → os.stat (sys_stat (log_info_path path) ∷ cs) ≡ none
      → read_log_info os path s cs ≡ done (info_after n) s (made cs)
  unfolding read_log_info ask ◌>>=◌
  fresh_lem n s cs empty gone = rw (empty, gone) (create_lem os path persists s _)

  -- The info file is read, or made if it was not there.
  read_lem :
      (n : ℕ) (s : LogState) (cs : List SysCall)
      → Window os path n cs
      → (ds : List SysCall) × ((read_log_info os path s cs ≡ done (info_after n) s ds)
          × (kept ds ≡ kept cs))
  unfolding read_log_info ask ◌>>=◌
  read_lem n s cs w = elim w.info_is [
    | inl e ↦
        (_, (existing_lem os path persists (info_after n) _ s _ (persists.found _ cs e) e, refl))
    | inr (empty, gone) ↦ (_, (fresh_lem n s cs empty gone, refl))
  ]

  kept-moved :
      (n : ℕ) (ds : List SysCall)
      → kept ds ≡ window path n
      → kept (moved os path persists n ds) ≡ window path (n + 1)
  kept-moved n ds e = elim (Bool-cases (below n 63)) [
    | inl small ↦ rw (small, e) (sym (window_small path n small))
    | inr large ↦ rw (large, e) (sym (window_large path n large))
  ]

  -- On a file system that keeps what is written to the info file: if the info file and the kept
  -- files are as after n backups (the info file has the count, at most 63, and the oldest number,
  -- or is not there and n is 0; the kept files are the last 63, or all if there are fewer, under
  -- their numbers), then BackupLogFile returns, and they are as after n + 1 backups.
  pub backup_log_file-Window :
      (n : ℕ) (s : LogState) (cs : List SysCall)
      → Window os path n cs
      → (ds : List SysCall) × ((backup_log_file os path s cs ≡ done tt s ds)
          × Window os path (n + 1) ds)
  unfolding backup_log_file
  backup_log_file-Window n s cs w =
      let (ds, (e, same_names)) = read_lem n s cs w in
      (
        noted os path persists (info_after (n + 1)) (moved os path persists n ds),
        (
          bind_done (read_log_info os path) (backup_as os path) s cs e
              ∙ backup_as_lem os path persists n s ds,
          record {
            info_is = inl (rw (same_self (log_info_path path)) refl);
            kept_is = kept-moved n ds (same_names ∙ w.kept_is);
          },
        ),
      )

  -- On a file system that keeps what is written to the info file: if the info file and the kept
  -- files are as after n backups, then k more calls of BackupLogFile all return, and they are as
  -- after n + k backups: the last 63 files are kept, or all if there are fewer, under the numbers
  -- of the calls that made them, from 0.
  pub backups-Window :
      (k n : ℕ) (s : LogState) (cs : List SysCall)
      → Window os path n cs
      → (ds : List SysCall) × ((backups os path k s cs ≡ done tt s ds) × Window os path (n + k) ds)
  unfolding backups pure
  backups-Window zero n s cs w = (cs, (refl, (let e : n + 0 ≡ n = omega arith in rw e w)))
  backups-Window (suc k) n s cs w =
      let (ds, (e, w')) = backup_log_file-Window n s cs w in
      let (es, (f, w'')) = backups-Window k (n + 1) s ds w' in
      (
        es,
        (
          bind_done (backup_log_file os path) (λ _. backups os path k) s cs e ∙ f,
          (let g : n + suc k ≡ n + 1 + k = omega arith in rw g w''),
        ),
      )
