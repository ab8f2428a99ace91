-- ===== src/Log/Bytes/Decimal.antt =====
-- Decimal texts, and the numbers that they stand for.
use mathlib.Core.Path.{refl}
use ant_media_server_confere.Base.{
  ℕ, zero, suc, ◌+◌, ◌-◌, ◌*◌, ◌/◌, ◌%◌, ◌<◌, ◌≡◌, sym, ap, ◌∙◌, true, [], ◌∷◌, ◌++◌, arith,
  Bool-cases, inl, inr,
}
use ant_media_server_confere.Platform.Int.{below}
use ant_media_server_confere.Log.Bytes.{Bytes, digits, number, same}

-- The number that decimal digits stand for, with `acc` in front of them.
unfoldable pub value : ℕ → Bytes → ℕ
value acc [] = acc
value acc (c ∷ s) = value (acc * 10 + (c - b'0')) s

value-digits : (fuel n : ℕ) (rest : Bytes) → n < fuel → value 0 (digits fuel n rest) ≡ value n rest
unfolding digits value
value-digits zero n rest h = absurd (omega arith)
value-digits (suc fuel) n rest h = elim (Bool-cases (below n 10)) [
  | inl small ↦ rw small (ap (λ k. value k rest) (omega arith))
  | inr large ↦ rw large (
      value-digits fuel (n / 10) ((b'0' + n % 10) ∷ rest) (ground arith)
      ∙ ap (λ k. value k rest) (omega arith))
]

pub value-number : (n : ℕ) → value 0 (number n) ≡ n
unfolding number value
value-number n = value-digits (suc n) n [] (omega arith)

pub number_inj : (m n : ℕ) → number m ≡ number n → m ≡ n
number_inj m n e = sym (value-number m) ∙ ap (value 0) e ∙ value-number n

pub same_self : (s : Bytes) → same s s ≡ true
unfolding same
same_self [] = refl
same_self (c ∷ s) = ground (arith, same_self s)

pub same-eq : (s t : Bytes) → same s t ≡ true → s ≡ t
unfolding same
same-eq [] [] h = refl
same-eq [] (d ∷ t) h = cc
same-eq (c ∷ s) [] h = cc
same-eq (c ∷ s) (d ∷ t) h = ground (arith, same-eq s t)

pub append_inj : (p s t : Bytes) → p ++ s ≡ p ++ t → s ≡ t
append_inj [] s t e = e
append_inj (c ∷ p) s t e = append_inj p s t (cc)
