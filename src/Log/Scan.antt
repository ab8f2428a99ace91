-- ===== src/Log/Scan.antt =====
-- `sscanf(name, "%d-%d-%d", ...) == 3`, and with ".tgz" behind it, which does not change the count.
pub mod Days
use mathlib.Core.Path.{refl}
use ant_media_server_confere.Base.{
  ℕ, suc, ◌+◌, ◌-◌, ◌*◌, ◌≡◌, Bool, ◌&&◌, ◌||◌, not, Option, none, some, List, [], ◌∷◌,
  if◌then◌else◌,
}
use ant_media_server_confere.Platform.Int.{ℤ, pos, negsuc, below}
use ant_media_server_confere.Log.Bytes.{Bytes, bytes, ◌=ℕ◌}

infixl 5 ◌>>=◌
abbrev ◌>>=◌ : {A B : Type 0} → Option A → (A → Option B) → Option B
none >>= f = none
some a >>= f = f a

abbrev pub is_digit : ℕ → Bool
is_digit c = not (below c b'0') && below c 58

abbrev pub is_space : ℕ → Bool
is_space c = c =ℕ 32 || not (below c 9) && below c 14

unfoldable pub skip_space : Bytes → Bytes
skip_space [] = []
skip_space (c ∷ s) = let rest = skip_space s in if is_space c then rest else c ∷ s

-- The digits in front, on top of `acc`, and what follows them.
unfoldable pub read_digits : ℕ → Bytes → ℕ × Bytes
read_digits acc [] = (acc, [])
read_digits acc (c ∷ s) =
    let more = read_digits (acc * 10 + (c - b'0')) s in if is_digit c then more else (acc, c ∷ s)

unfoldable pub scan_unsigned : Bytes → Option (ℕ × Bytes)
scan_unsigned [] = none
scan_unsigned (c ∷ s) = if is_digit c then some (read_digits 0 (c ∷ s)) else none

abbrev negated : ℕ → ℤ
negated n = if n =ℕ 0 then pos 0 else negsuc (n - 1)

abbrev as_pos : Option (ℕ × Bytes) → Option (ℤ × Bytes)
as_pos none = none
as_pos (some (n, rest)) = some (pos n, rest)

abbrev as_neg : Option (ℕ × Bytes) → Option (ℤ × Bytes)
as_neg none = none
as_neg (some (n, rest)) = some (negated n, rest)

abbrev scan_signed : Bytes → Option (ℤ × Bytes)
scan_signed [] = none
scan_signed (c ∷ s) =
    if c =ℕ b'-'
    then as_neg (scan_unsigned s)
    else if c =ℕ b'+'
    then as_pos (scan_unsigned s)
    else as_pos (scan_unsigned (c ∷ s))

-- "%d". The numbers in the names are taken to be in the range of int.
unfoldable pub scan_int : Bytes → Option (ℤ × Bytes)
scan_int s = scan_signed (skip_space s)

-- The "-" between two numbers.
unfoldable pub scan_dash : Bytes → Option Bytes
scan_dash [] = none
scan_dash (c ∷ s) = if c =ℕ b'-' then some s else none

-- The year, the month and the day as they are written, if all three are there.
unfoldable pub scan_date : Bytes → Option (ℤ × ℤ × ℤ)
scan_date s = do
  year ← scan_int s
  month_text ← scan_dash year.1
  month ← scan_int month_text
  day_text ← scan_dash month.1
  day ← scan_int day_text
  some (year.0, month.0, day.0)

dates :
    (scan_date (bytes "2022-09-14") ≡ some (pos 2022, pos 9, pos 14))
    × (scan_date (bytes "2022-09-14.tgz") ≡ some (pos 2022, pos 9, pos 14))
    × (scan_date (bytes "2022-09") ≡ none)
    × (scan_date (bytes "lost+found") ≡ none)
unfolding scan_date scan_int scan_dash scan_unsigned skip_space read_digits
dates = (refl, refl, refl, refl)
