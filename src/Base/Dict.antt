-- ===== src/Base/Dict.antt =====
-- `std::unordered_map<std::string, V>` as an association list. The order in which the program
-- walks over a map is the list's, one of the orders that C++ allows.
use Prim.Native.String.{String}
use mathlib.Core.Path.{◌≡◌, refl}
use mathlib.Core.Bool.{Bool, true, false}
use mathlib.Core.Option.{Option, none, some}
use mathlib.Core.List.{List, [], ◌∷◌}
use native.Mathlib.Omega.{arith}
use ant_media_server_confere.Base.Text.{◌==◌, if◌then◌else◌}

abbrev pub Dict {ℓ} : Type ℓ → Type ℓ
Dict V = List (String × V)

module _ {ℓ} {V : Type ℓ} where
  -- `m.find(k)`.
  unfoldable pub lookup : String → Dict V → Option V
  lookup k [] = none
  lookup k ((j, v) ∷ d) = if k == j then some v else lookup k d

  -- `m[k] = v`.
  unfoldable pub insert : String → V → Dict V → Dict V
  insert k v [] = (k, v) ∷ []
  insert k v ((j, w) ∷ d) = if k == j then (k, v) ∷ d else (j, w) ∷ insert k v d

  -- `m.erase(k)`. Every entry of the key goes; a real map has at most one.
  unfoldable pub erase : String → Dict V → Dict V
  erase k [] = []
  erase k ((j, w) ∷ d) = let rest = erase k d in if k == j then rest else (j, w) ∷ rest

  abbrev pub is_some : Option V → Bool
  is_some none = false
  is_some (some v) = true

  -- `m.count(k)`, as a test.
  abbrev pub contains : String → Dict V → Bool
  contains k d = is_some (lookup k d)

  abbrev pub or_else : V → Option V → V
  or_else v none = v
  or_else v (some w) = w

  -- The value that `m[k]` refers to, where a missing key gets the value-initialised `v`.
  abbrev pub get_or : V → String → Dict V → V
  get_or v k d = or_else v (lookup k d)

  pub lookup-insert :
      (searched k : String) (v : V) (d : Dict V)
      → lookup searched (insert k v d) ≡ (if searched == k then some v else lookup searched d)
  unfolding insert lookup
  lookup-insert searched k v [] = ground arith
  lookup-insert searched k v (_ ∷ d) = ground (arith, lookup-insert searched k v d)

  pub lookup-erase :
      (j k : String) (d : Dict V) → lookup j (erase k d) ≡ (if j == k then none else lookup j d)
  unfolding erase lookup
  lookup-erase j k [] = ground arith
  lookup-erase j k (_ ∷ d) = ground (arith, lookup-erase j k d)

pub lookup-nil {ℓ} : {V : Type ℓ} (k : String) → lookup {V = V} k [] ≡ none
unfolding lookup
lookup-nil k = refl

pub ruleset dict_laws = (lookup-nil, lookup-insert, lookup-erase)
