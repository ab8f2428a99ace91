-- ===== src/Log/Scan/Days.antt =====
-- The name of the folder of a day, and the date that is read from it.
use mathlib.Core.List.{append_assoc}
use mathlib.Core.Path.{refl, subst}
use ant_media_server_confere.Base.{
  ℕ, zero, suc, ◌+◌, ◌-◌, ◌*◌, ◌/◌, ◌%◌, ◌<◌, ◌≡◌, ◌∙◌, Bool, true, false, not, some, [], ◌∷◌, ◌++◌,
  arith, Bool-cases, inl, inr,
}
use ant_media_server_confere.Platform.Int.{pos, below}
use ant_media_server_confere.Log.Bytes.{Bytes, digits, number, two_digits, ◌=ℕ◌}
use ant_media_server_confere.Log.System.{Clock}
use ant_media_server_confere.Log.Publish.{day_name}
use ant_media_server_confere.Log.Scan.{
  is_digit, is_space, skip_space, read_digits, scan_unsigned, scan_int, scan_dash, scan_date,
}

-- No digit stands in front.
abbrev pub stops : Bytes → Bool
stops [] = true
stops (c ∷ s) = not (is_digit c)

read_digits-stops : (n : ℕ) (rest : Bytes) → stops rest ≡ true → read_digits n rest ≡ (n, rest)
unfolding read_digits
read_digits-stops n [] h = refl
read_digits-stops n (c ∷ s) h = let end : is_digit c ≡ false = ground arith in rw end refl

digits-append : (fuel n : ℕ) (s rest : Bytes) → digits fuel n s ++ rest ≡ digits fuel n (s ++ rest)
unfolding digits
digits-append zero n s rest = refl
digits-append (suc fuel) n s rest = elim (Bool-cases (below n 10)) [
  | inl small ↦ rw small refl
  | inr large ↦ rw large (digits-append fuel (n / 10) ((b'0' + n % 10) ∷ s) rest)
]

digit_lem : (d : ℕ) → d < 10 → is_digit (b'0' + d) ≡ true
digit_lem d h = ground arith

read_digits-digit :
    (acc n d : ℕ) (rest : Bytes)
    → d < 10
    → acc * 10 + d ≡ n
    → read_digits acc ((b'0' + d) ∷ rest) ≡ read_digits n rest
unfolding read_digits
read_digits-digit acc n d rest h e =
    let sum : acc * 10 + (b'0' + d - b'0') ≡ n = omega arith in rw (digit_lem d h, sum) refl

read_digits-digits :
    (fuel n : ℕ) (rest : Bytes) → n < fuel → read_digits 0 (digits fuel n rest) ≡ read_digits n rest
unfolding digits
read_digits-digits zero n rest h = absurd (omega arith)
read_digits-digits (suc fuel) n rest h = elim (Bool-cases (below n 10)) [
  | inl small ↦ rw small (read_digits-digit 0 n n rest (ground arith) (omega arith))
  | inr large ↦ rw large (
      read_digits-digits fuel (n / 10) ((b'0' + n % 10) ∷ rest) (ground arith)
      ∙ read_digits-digit (n / 10) n (n % 10) rest (omega arith) (omega arith))
]

-- A text that starts with a digit.
abbrev StartsWithDigit : Bytes → Type 0
StartsWithDigit t = (c : ℕ) × (s : Bytes) × ((t ≡ c ∷ s) × (is_digit c ≡ true))

digits-StartsWithDigit :
    (fuel n : ℕ) (rest : Bytes) → n < fuel → StartsWithDigit (digits fuel n rest)
unfolding digits
digits-StartsWithDigit zero n rest h = absurd (omega arith)
digits-StartsWithDigit (suc fuel) n rest h = elim (Bool-cases (below n 10)) [
  | inl small ↦ rw small (b'0' + n, rest, (refl, digit_lem n (ground arith)))
  | inr large ↦
      rw large (digits-StartsWithDigit fuel (n / 10) ((b'0' + n % 10) ∷ rest) (ground arith))
]

scan_int_lem :
    (t rest : Bytes) (n : ℕ)
    → StartsWithDigit t
    → read_digits 0 t ≡ (n, rest)
    → scan_int t ≡ some (pos n, rest)
unfolding scan_int skip_space scan_unsigned
scan_int_lem t rest n (c, s, (e, digit)) read = rw e (
    let space : is_space c ≡ false = ground arith in
    let minus : c =ℕ b'-' ≡ false = ground arith in
    let plus : c =ℕ b'+' ≡ false = ground arith in
    let read' : read_digits 0 (c ∷ s) ≡ (n, rest) =
      subst (λ u. read_digits 0 u ≡ (n, rest)) e read in
    rw (space, minus, plus, digit, read') refl)

number_lem :
    (n : ℕ) (rest : Bytes) → stops rest ≡ true → read_digits 0 (number n ++ rest) ≡ (n, rest)
unfolding number
number_lem n rest h =
    rw (digits-append (suc n) n [] rest)
      (read_digits-digits (suc n) n rest (omega arith) ∙ read_digits-stops n rest h)

read_digits-zero : (s : Bytes) → read_digits 0 (b'0' ∷ s) ≡ read_digits 0 s
unfolding read_digits
read_digits-zero s = refl

number-StartsWithDigit : (n : ℕ) (rest : Bytes) → StartsWithDigit (number n ++ rest)
unfolding number
number-StartsWithDigit n rest =
    rw (digits-append (suc n) n [] rest) (digits-StartsWithDigit (suc n) n rest (omega arith))

number-read :
    (n : ℕ) (rest : Bytes) → stops rest ≡ true → scan_int (number n ++ rest) ≡ some (pos n, rest)
number-read n rest h =
    scan_int_lem (number n ++ rest) rest n (number-StartsWithDigit n rest) (number_lem n rest h)

two_digits-read :
    (n : ℕ) (rest : Bytes)
    → stops rest ≡ true
    → scan_int (two_digits n ++ rest) ≡ some (pos n, rest)
unfolding two_digits
two_digits-read n rest h = elim (Bool-cases (below n 10)) [
  | inl small ↦ rw small (
      scan_int_lem (b'0' ∷ number n ++ rest) rest n (b'0', number n ++ rest, (refl, refl))
        (read_digits-zero (number n ++ rest) ∙ number_lem n rest h))
  | inr large ↦ rw large (number-read n rest h)
]

day_name-append :
    (clock : Clock) (rest : Bytes)
    → day_name clock ++ rest
      ≡ number clock.year
        ++ (b'-' ∷ (two_digits clock.month ++ (b'-' ∷ (two_digits clock.day ++ rest))))
unfolding day_name
day_name-append clock rest = simp append_assoc

-- A name that starts with the name of the folder of a day, and goes on with no digit, is read as the
-- year, the month and the day of the clock.
pub scan_date-day_name :
    (clock : Clock) (rest : Bytes)
    → stops rest ≡ true
    → scan_date (day_name clock ++ rest) ≡ some (pos clock.year, pos clock.month, pos clock.day)
unfolding scan_date scan_dash
scan_date-day_name clock rest h =
    rw
      (
        day_name-append clock rest,
        number-read clock.year
            (b'-' ∷ (two_digits clock.month ++ (b'-' ∷ (two_digits clock.day ++ rest)))) refl,
        two_digits-read clock.month (b'-' ∷ (two_digits clock.day ++ rest)) refl,
        two_digits-read clock.day rest h,
      )
      refl
