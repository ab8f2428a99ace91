-- ===== src/Log/Bytes.antt =====
-- C strings and std::string where the log code walks over their bytes.
pub mod Decimal
use Prim.Native.Char.{code}
use Prim.Native.Nat.{compare, Ordering}
use Prim.Native.String.{String}
use ant_media_server_confere.Base.{
  ℕ, zero, suc, ◌+◌, ◌-◌, ◌/◌, ◌%◌, ◌≡◌, refl, Bool, true, false, ◌&&◌, ◌||◌, Option, none, some,
  List, [], ◌∷◌, ◌++◌, if◌then◌else◌,
}
use ant_media_server_confere.Platform.Int.{ℤ, pos, negsuc, below}

abbrev pub Bytes : Type 0
Bytes = List ℕ

-- A literal of the source.
abbrev pub bytes : String → Bytes
bytes String.[] = []
bytes (String.◌∷◌ c s) = code c ∷ bytes s

infix 50 ◌=ℕ◌
abbrev pub ◌=ℕ◌ : ℕ → ℕ → Bool
a =ℕ b = elim (compare a b) [ Ordering.eq ↦ true | _ ↦ false ]

-- `std::string::operator==` and strcmp.
unfoldable pub same : Bytes → Bytes → Bool
same [] [] = true
same [] (d ∷ t) = false
same (c ∷ s) [] = false
same (c ∷ s) (d ∷ t) = c =ℕ d && same s t

abbrev pub length : Bytes → ℕ
length [] = 0
length (c ∷ s) = suc (length s)

abbrev pub take : ℕ → Bytes → Bytes
take zero s = []
take (suc n) [] = []
take (suc n) (c ∷ s) = c ∷ take n s

-- snprintf into a buffer of a size: at most size - 1 bytes.
abbrev pub printed : ℕ → Bytes → Bytes
printed size s = take (size - 1) s

-- `find_last_of(c)`.
abbrev pub or_later : ℕ → ℕ → Option ℕ → Option ℕ
or_later c d (some i) = some (suc i)
or_later c d none = if c =ℕ d then some 0 else none

unfoldable pub find_last_of : ℕ → Bytes → Option ℕ
find_last_of c [] = none
find_last_of c (d ∷ s) = or_later c d (find_last_of c s)

-- `strstr(s, part) != NULL`.
unfoldable pub starts_with : Bytes → Bytes → Bool
starts_with [] s = true
starts_with (c ∷ part) [] = false
starts_with (c ∷ part) (d ∷ s) = c =ℕ d && starts_with part s

unfoldable pub has_part : Bytes → Bytes → Bool
unfolding starts_with
has_part part [] = starts_with part []
has_part part (d ∷ s) = starts_with part (d ∷ s) || has_part part s

-- `std::to_string` and "%d". The fuel bounds the number of digits.
unfoldable pub digits : ℕ → ℕ → Bytes → Bytes
digits zero n rest = rest
digits (suc fuel) n rest =
    let more = digits fuel (n / 10) ((b'0' + n % 10) ∷ rest) in
    if below n 10 then (b'0' + n) ∷ rest else more

unfoldable pub number : ℕ → Bytes
unfolding digits
number n = digits (suc n) n []

unfoldable pub int_number : ℤ → Bytes
unfolding number
int_number (pos n) = number n
int_number (negsuc n) = b'-' ∷ number (suc n)

-- "%02d" of a number that is not negative.
unfoldable pub two_digits : ℕ → Bytes
two_digits n = if below n 10 then b'0' ∷ number n else number n

number_run :
    (number 1200 ≡ bytes "1200")
    × (int_number (negsuc 6) ≡ bytes "-7")
    × (find_last_of b'.' (bytes "a.b.c") ≡ some 3)
    × (has_part (bytes ".tgz") (bytes "x.tgz-1") ≡ true)
unfolding number int_number find_last_of has_part
number_run = (refl, refl, refl, refl)
