-- ===== src/Base/Exec/Returns.antt =====
-- Methods that return, whatever the object and the calls so far.
use mathlib.Core.Path.{◌≡◌, refl}
use mathlib.Core.Bool.{Bool, true, false}
use mathlib.Core.Option.{Option, none, some}
use mathlib.Core.List.{List, ◌∷◌}
use ant_media_server_confere.Base.Text.{if◌then◌else◌}
use ant_media_server_confere.Base.Dict.{is_some}
use native.Mathlib.Omega.{arith}
use ant_media_server_confere.Base.Exec.{
  Exec, Outcome, done, thrown, has_thrown, pure, gets, try_pure, modify, call, emit, observe,
  swallow, no_more, ◌>>=◌, when, with_part, on_part, embed,
}

pub record Returns {ℓ} {S C A : Type ℓ} (m : Exec S C A) : Type ℓ where
  pub at : (s : S) (cs : List C) → has_thrown (m s cs) ≡ false

module _ {ℓ} {S C A : Type ℓ} where
  pub Returns-pure : (a : A) → Returns {S = S} {C = C} (pure a)
  unfolding pure
  Returns-pure a = record { at = λ s cs. refl }

  pub Returns-gets : (f : S → A) → Returns {C = C} (gets f)
  unfolding gets
  Returns-gets f = record { at = λ s cs. refl }

  pub Returns-observe : (f : List C → A) → Returns {S = S} (observe f)
  unfolding observe
  Returns-observe f = record { at = λ s cs. refl }

  pub Returns-if :
      (b : Bool) (m n : Exec S C A) → Returns m → Returns n → Returns (if b then m else n)
  Returns-if true m n h k = h
  Returns-if false m n h k = k

  pub Returns-try_pure : (o : Option A) → is_some o ≡ true → Returns {S = S} {C = C} (try_pure o)
  unfolding try_pure
  Returns-try_pure (some a) e = record { at = λ s cs. refl }
  Returns-try_pure none e = record { at = λ s cs. absurd (ground (arith, e)) }

module _ {ℓ} {S C : Type ℓ} where
  pub Returns-modify : (f : S → S) → Returns {C = C} (modify f)
  unfolding modify
  Returns-modify f = record { at = λ s cs. refl }

  pub Returns-emit : (c : C) → Returns {S = S} (emit c)
  unfolding emit
  Returns-emit c = record { at = λ s cs. refl }

  pub Returns-call :
      (throws : List C → Bool) (c : C)
      → ((cs : List C) → throws cs ≡ false)
      → Returns {S = S} (call throws c)
  unfolding call
  Returns-call throws c quiet = record { at = λ s cs. rw (quiet (c ∷ cs)) refl }

  pub Returns-when : (b : Bool) (m : Exec S C (Unit {ℓ})) → Returns m → Returns (when b m)
  unfolding when pure
  Returns-when true m h = h
  Returns-when false m h = record { at = λ s cs. refl }

  no_more-returns : (o : Outcome S C (Unit {ℓ})) → has_thrown (no_more o) ≡ false
  no_more-returns (done a s cs) = refl
  no_more-returns (thrown s cs) = refl

  pub Returns-swallow : (m : Exec S C (Unit {ℓ})) → Returns (swallow m)
  unfolding swallow
  Returns-swallow m = record { at = λ s cs. no_more-returns (m s cs) }

module _ {ℓ} {S C A B : Type ℓ} where
  bind-returns :
      (f : A → Exec S C B) (o : Outcome S C A)
      → has_thrown o ≡ false
      → ((a : A) → Returns (f a))
      → has_thrown {S = S} {C = C} {A = B}
          (elim o [ done a s cs ↦ f a s cs | thrown s cs ↦ thrown s cs ])
        ≡ false
  bind-returns f (done a s cs) h k = (k a).at s cs
  bind-returns f (thrown s cs) h k = h

  pub Returns-bind :
      (m : Exec S C A) (f : A → Exec S C B)
      → Returns m
      → ((a : A) → Returns (f a))
      → Returns (m >>= f)
  unfolding ◌>>=◌
  Returns-bind m f h k = record { at = λ s cs. bind-returns f (m s cs) (h.at s cs) k }

module _ {ℓ} {S T C A : Type ℓ} where
  pub embed-returns :
      (put : T → S) (o : Outcome T C A) → has_thrown o ≡ false → has_thrown (embed put o) ≡ false
  embed-returns put (done a t cs) h = h
  embed-returns put (thrown t cs) h = h

  on_part-returns :
      (a : A) (o : Option T) (put : T → S) (m : Exec T C A) (s : S) (cs : List C)
      → Returns m
      → has_thrown (on_part a o put m s cs) ≡ false
  on_part-returns a none put m s cs h = refl
  on_part-returns a (some t) put m s cs h = embed-returns put (m t cs) (h.at t cs)

  pub Returns-with_part :
      (a : A) (get : S → Option T) (put : S → T → S) (m : Exec T C A)
      → Returns m
      → Returns (with_part a get put m)
  unfolding with_part
  Returns-with_part a get put m h = record {
    at = λ s cs. on_part-returns a (get s) (put s) m s cs h;
  }

pub ruleset returns_rules = (
  Returns-pure, Returns-gets, Returns-observe, Returns-if, Returns-modify, Returns-emit,
  Returns-when, Returns-swallow, Returns-bind, Returns-with_part,
)
