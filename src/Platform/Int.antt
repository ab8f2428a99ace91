-- ===== src/Platform/Int.antt =====
-- C++ `int`, as far as the program uses it: a payload type, with -1 for none, a label, and the
-- numbers of log files. No value is wrapped, since a signed overflow is undefined: values outside the
-- range of `int` are not modelled.
use Prim.Native.Nat.{compare, Ordering}
use ant_media_server_confere.Base.{ℕ, suc, ◌+◌, ◌-◌, Bool, true, false, if◌then◌else◌}

-- `negsuc n` is -(n + 1).
pub data ℤ : Type 0 where
  pos : ℕ → ℤ
  negsuc : ℕ → ℤ

-- `a < b` on numbers that are not negative.
abbrev pub below : ℕ → ℕ → Bool
below a b = elim (compare a b) [ Ordering.lt ↦ true | _ ↦ false ]

abbrev pub ltb_ℤ : ℤ → ℤ → Bool
ltb_ℤ (pos a) (pos b) = below a b
ltb_ℤ (pos a) (negsuc b) = false
ltb_ℤ (negsuc a) (pos b) = true
ltb_ℤ (negsuc a) (negsuc b) = below b a

infixl 65 ◌+ℤ◌
abbrev pub ◌+ℤ◌ : ℤ → ℤ → ℤ
pos a +ℤ pos b = pos (a + b)
pos a +ℤ negsuc b = if below b a then pos (a - suc b) else negsuc (b - a)
negsuc a +ℤ pos b = if below a b then pos (b - suc a) else negsuc (a - b)
negsuc a +ℤ negsuc b = negsuc (suc (a + b))

abbrev pub eqb : ℕ → ℕ → Bool
eqb a b = elim (compare a b) [ Ordering.eq ↦ true | _ ↦ false ]

abbrev pub eqb_ℤ : ℤ → ℤ → Bool
eqb_ℤ (pos a) (pos b) = eqb a b
eqb_ℤ (pos a) (negsuc b) = false
eqb_ℤ (negsuc a) (pos b) = false
eqb_ℤ (negsuc a) (negsuc b) = eqb a b
