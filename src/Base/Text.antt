-- ===== src/Base/Text.antt =====
-- Equality of texts by decision, and the conditional. A split on `s == t` yields the equation or
-- its negation.
use Prim.Native.String.{String}
use Prim.Native.String
use mathlib.Core.Path.{◌≡◌, refl}
use mathlib.Core.Logic.{ite, dite, ◌⊎◌, inl, inr}
use mathlib.Core.Bool.{Bool, true, false, cond, Bool-discrete}
use text.Mathlib.Text
use text.Mathlib.TextEquality.{eq_iff}

infix 1 if◌then◌else◌
abbrev pub if◌then◌else◌ {ℓ} : {A : Type ℓ} → Bool → A → A → A
if b then x else y = cond b x y

-- `std::string::operator==`, as a decision.
unfoldable pub string_dec : Discrete String
string_dec s t =
    dite (Bool-discrete (Text.◌==◌ s t) true) (λ same. yes ((eq_iff s t).0 same))
      (λ differ. no (λ p. differ ((eq_iff s t).1 p)))

infix 50 ◌==◌
abbrev pub ◌==◌ : String → String → Bool
s == t = ite (string_dec s t) true false

-- `std::string::empty`.
abbrev pub is_empty : String → Bool
is_empty s = s == ""

infixr 65 ◌<>◌
-- `std::string::operator+`.
abbrev pub ◌<>◌ : String → String → String
s <> t = String.◌++◌ s t

pub Bool-cases : (b : Bool) → (b ≡ true) ⊎ (b ≡ false)
Bool-cases true = inl refl
Bool-cases false = inr refl
