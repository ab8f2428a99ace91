-- ===== src/Log/Names.antt =====
-- The names of the backups and of the info file.
use mathlib.Core.Path.{refl}
use ant_media_server_confere.Base.{
  ℕ, zero, suc, ◌+◌, ◌/◌, ◌%◌, ◌<◌, ◌≡◌, ◌≢◌, ap, false, [], ◌∷◌, ◌++◌, arith, Bool-cases, inl, inr,
}
use ant_media_server_confere.Platform.Int.{pos, below}
use ant_media_server_confere.Log.Bytes.{
  Bytes, bytes, digits, number, int_number, same, find_last_of,
}
use ant_media_server_confere.Log.Bytes.Decimal.{number_inj, same-eq, append_inj}
use ant_media_server_confere.Log.Backup.{backup_name, log_info_path, info_stem}

-- The last byte, or `c` for none.
abbrev last : ℕ → Bytes → ℕ
last c [] = c
last c (d ∷ s) = last d s

last-append : (c : ℕ) (s t : Bytes) → last c (s ++ t) ≡ last (last c s) t
last-append c [] t = refl
last-append c (d ∷ s) t = last-append d s t

last-digits : (fuel n c d : ℕ) (rest : Bytes) → last c (digits fuel n (d ∷ rest)) ≡ last d rest
unfolding digits
last-digits zero n c d rest = refl
last-digits (suc fuel) n c d rest = elim (Bool-cases (below n 10)) [
  | inl small ↦ rw small refl
  | inr large ↦ rw large (last-digits fuel (n / 10) c (b'0' + n % 10) (d ∷ rest))
]

-- A number ends in a digit.
last-number : (n c : ℕ) → last c (number n) < 58
unfolding number digits
last-number n c = elim (Bool-cases (below n 10)) [
  | inl small ↦ rw small (ground arith)
  | inr large ↦ rw (large, last-digits n (n / 10) c (b'0' + n % 10) []) (omega arith)
]

false_of : (s t : Bytes) → s ≢ t → same s t ≡ false
false_of s t differ = elim (Bool-cases (same s t)) [
  | inl e ↦ absurd (differ (same-eq s t e))
  | inr e ↦ e
]

pub backup_name_inj :
    (path : Bytes) (m n : ℕ)
    → m ≢ n
    → same (backup_name path (pos m)) (backup_name path (pos n)) ≡ false
unfolding backup_name int_number
backup_name_inj path m n differ =
    false_of _ _ (λ e. differ (number_inj m n (append_inj (path ++ bytes "-") _ _ e)))

pub backup_name-log_info_path :
    (path : Bytes) (n : ℕ) → same (backup_name path (pos n)) (log_info_path path) ≡ false
unfolding backup_name int_number log_info_path
backup_name-log_info_path path n = false_of _ _ differ
  where
    stem : Bytes
    stem = info_stem path (find_last_of b'.' path) (find_last_of b'/' path)

    differ : (path ++ bytes "-") ++ number n ≢ stem ++ bytes "logInfo"
    differ e = omega (
      arith,
      last-number n (last 0 (path ++ bytes "-")),
      last-append 0 (path ++ bytes "-") (number n),
      last-append 0 stem (bytes "logInfo"),
      ap (last 0) e,
    )
