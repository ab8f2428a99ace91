-- ===== src/Log/Returns/Lines.antt =====
-- The functions of Log.cpp that write lines and back files up, and the lock.
use ant_media_server_confere.Base.{ℕ, Option, none, some, [], ◌∷◌, ◌++◌}
use ant_media_server_confere.Log.Bytes.{Bytes}
use ant_media_server_confere.Log.System.{LogInfo, Os, LogState}
use ant_media_server_confere.Log.Backup.{
  read_existing, create_info, read_or_create, read_log_info, write_log_info, backup_as,
  backup_log_file, get_file_size,
}
use ant_media_server_confere.Log.Publish.{make_missing, make_prefixes, mkdirs}
use ant_media_server_confere.Log.Returns.{Stays, stays_rules, Stays-pure}

module _ (P : LogState → Type 0) (os : Os) where
  read_existing-Stays : (p : Bytes) → Stays P (read_existing os p)
  unfolding read_existing
  read_existing-Stays p = search stays_rules

  create_info-Stays : (p : Bytes) → Stays P (create_info os p)
  unfolding create_info
  create_info-Stays p = search stays_rules

  read_or_create-Stays : (p : Bytes) (size : Option ℕ) → Stays P (read_or_create os p size)
  unfolding read_or_create
  read_or_create-Stays p none = create_info-Stays p
  read_or_create-Stays p (some size) = read_existing-Stays p

  pub read_log_info-Stays : (p : Bytes) → Stays P (read_log_info os p)
  unfolding read_log_info
  read_log_info-Stays p = search (stays_rules, read_or_create-Stays)

  write_log_info-Stays : (p : Bytes) (info : LogInfo) → Stays P (write_log_info os p info)
  unfolding write_log_info
  write_log_info-Stays p info = search stays_rules

  backup_as-Stays : (p : Bytes) (info : LogInfo) → Stays P (backup_as os p info)
  unfolding backup_as
  backup_as-Stays p info = search (stays_rules, write_log_info-Stays)

  pub backup_log_file-Stays : (p : Bytes) → Stays P (backup_log_file os p)
  unfolding backup_log_file
  backup_log_file-Stays p = search (stays_rules, read_log_info-Stays, backup_as-Stays)

  pub get_file_size-Stays : (p : Option Bytes) → Stays P (get_file_size os p)
  unfolding get_file_size
  get_file_size-Stays none = Stays-pure _
  get_file_size-Stays (some p) = search stays_rules

  make_missing-Stays : (p : Bytes) → Stays P (make_missing os p)
  unfolding make_missing
  make_missing-Stays p = search stays_rules

  make_prefixes-Stays : (before p : Bytes) → Stays P (make_prefixes os before p)
  unfolding make_prefixes
  make_prefixes-Stays before [] = Stays-pure _
  make_prefixes-Stays before (c ∷ rest) =
      let later = make_prefixes-Stays (before ++ c ∷ []) rest in
      search (stays_rules, make_missing-Stays)

  pub mkdirs-Stays : (p : Bytes) → Stays P (mkdirs os p)
  unfolding mkdirs
  mkdirs-Stays p = search (stays_rules, make_missing-Stays, make_prefixes-Stays)
