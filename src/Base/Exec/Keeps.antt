-- ===== src/Base/Exec/Keeps.antt =====
-- Invariants of methods: `m` keeps `P` whether it returns or throws. One rule for each way to build
-- a method.
use mathlib.Core.Path.{◌≡◌, refl}
use mathlib.Core.Bool.{Bool, true, false}
use mathlib.Core.Option.{Option, none, some}
use mathlib.Core.List.{List, ◌∷◌}
use ant_media_server_confere.Base.Text.{if◌then◌else◌}
use ant_media_server_confere.Base.Exec.{
  Exec, Outcome, done, thrown, state, calls, pure, gets, try_pure, modify, call, emit, observe,
  swallow, no_more, answer, ◌>>=◌, when, with_part, on_part, embed,
}

pub record Keeps {ℓ} {S C A : Type ℓ} (P : S → List C → Type ℓ) (m : Exec S C A) : Type ℓ where
  pub at : (s : S) (cs : List C) → P s cs → P (state (m s cs)) (calls (m s cs))

module _ {ℓ} {S C A : Type ℓ} {P : S → List C → Type ℓ} where
  -- A read, or a value, leaves the object and the calls alone.
  pub Keeps-gets : (read : S → A) → Keeps P (gets read)
  unfolding gets
  Keeps-gets read = record { at = λ _ _ kept. kept }

  pub Keeps-pure : (result : A) → Keeps P (pure result)
  unfolding pure
  Keeps-pure result = record { at = λ _ _ kept. kept }

  pub Keeps-try_pure : (result : Option A) → Keeps P (try_pure result)
  unfolding try_pure
  Keeps-try_pure (some a) = record { at = λ _ _ kept. kept }
  Keeps-try_pure none = record { at = λ _ _ kept. kept }

  pub Keeps-if :
      (test : Bool) (one other : Exec S C A)
      → (test ≡ true → Keeps P one)
      → (test ≡ false → Keeps P other)
      → Keeps P (if test then one else other)
  Keeps-if false one other keeps_one keeps_other = keeps_other refl
  Keeps-if true one other keeps_one keeps_other = keeps_one refl

module _ {ℓ} {S C : Type ℓ} (P : S → List C → Type ℓ) where
  answer-keeps :
      (b : Bool) (s : S) (cs : List C) → P s cs → P (state (answer b s cs)) (calls (answer b s cs))
  answer-keeps true s cs h = h
  answer-keeps false s cs h = h

  no_more-keeps :
      (o : Outcome S C (Unit {ℓ}))
      → P (state o) (calls o)
      → P (state (no_more o)) (calls (no_more o))
  no_more-keeps (done a s cs) h = h
  no_more-keeps (thrown s cs) h = h

module _ {ℓ} {S C : Type ℓ} {P : S → List C → Type ℓ} where
  pub Keeps-modify :
      (f : S → S) → ((s : S) (cs : List C) → P s cs → P (f s) cs) → Keeps P (modify f)
  unfolding modify
  Keeps-modify f h = record { at = h }

  pub Keeps-call :
      (throws : List C → Bool) (c : C)
      → ((s : S) (cs : List C) → P s cs → P s (c ∷ cs))
      → Keeps P (call throws c)
  unfolding call
  Keeps-call throws c h = record {
    at = λ s cs p. answer-keeps P (throws (c ∷ cs)) s (c ∷ cs) (h s cs p);
  }

  pub Keeps-emit : (c : C) → ((s : S) (cs : List C) → P s cs → P s (c ∷ cs)) → Keeps P (emit c)
  unfolding emit
  Keeps-emit c h = record { at = h }

  pub Keeps-swallow : (m : Exec S C (Unit {ℓ})) → Keeps P m → Keeps P (swallow m)
  unfolding swallow
  Keeps-swallow m k = record { at = λ s cs h. no_more-keeps P (m s cs) (k.at s cs h) }

  pub Keeps-observe : {B : Type ℓ} (f : List C → B) → Keeps P (observe f)
  unfolding observe
  Keeps-observe f = record { at = λ s cs h. h }

  pub Keeps-when :
      (b : Bool) (m : Exec S C (Unit {ℓ})) → (b ≡ true → Keeps P m) → Keeps P (when b m)
  unfolding when
  Keeps-when true m k = k refl
  Keeps-when false m k = record { at = λ s cs h. h }

module _ {ℓ} {S C A B : Type ℓ} {P : S → List C → Type ℓ} where
  bind-keeps :
      (f : A → Exec S C B) (o : Outcome S C A)
      → ((a : A) → Keeps P (f a))
      → P (state o) (calls o)
      → let r : Outcome S C B = elim o [ done a s cs ↦ f a s cs | thrown s cs ↦ thrown s cs ] in
        P (state r) (calls r)
  bind-keeps f (done a s cs) k h = (k a).at s cs h
  bind-keeps f (thrown s cs) k h = h

  pub Keeps-bind :
      (first : Exec S C A) (then_do : A → Exec S C B)
      → Keeps P first
      → ((result : A) → Keeps P (then_do result))
      → Keeps P (first >>= then_do)
  unfolding ◌>>=◌
  Keeps-bind first then_do keeps_first keeps_rest = record {
    at = λ s cs kept. bind-keeps then_do (first s cs) keeps_rest (keeps_first.at s cs kept);
  }

module _ {ℓ} {S T C A : Type ℓ} (P : S → List C → Type ℓ) (put : T → S) where
  embed-keeps :
      (o : Outcome T C A)
      → ((t : T) (cs : List C) → P (put t) cs)
      → P (state (embed put o)) (calls (embed put o))
  embed-keeps (done a t cs) h = h t cs
  embed-keeps (thrown t cs) h = h t cs

  on_part-keeps :
      (a : A) (o : Option T) (m : Exec T C A) (s : S) (cs : List C)
      → P s cs
      → ((t u : T) (ds : List C) → o ≡ some t → P (put u) ds)
      → P (state (on_part a o put m s cs)) (calls (on_part a o put m s cs))
  on_part-keeps a none m s cs h k = h
  on_part-keeps a (some t) m s cs h k = embed-keeps (m t cs) (λ u ds. k t u ds refl)

module _ {ℓ} {S T C A : Type ℓ} {P : S → List C → Type ℓ} where
  -- For a property that the part and the calls do not matter to.
  pub Keeps-with_part :
      (a : A) (get : S → Option T) (put : S → T → S) (m : Exec T C A)
      → ((s : S) (cs ds : List C) (t u : T) → P s cs → get s ≡ some t → P (put s u) ds)
      → Keeps P (with_part a get put m)
  unfolding with_part
  Keeps-with_part a get put m k = record {
    at = λ s cs h. on_part-keeps P (put s) a (get s) m s cs h (λ t u ds e. k s cs ds t u h e);
  }

pub ruleset keeps_rules = (
  Keeps-pure, Keeps-gets, Keeps-observe, Keeps-try_pure, Keeps-if, Keeps-when, Keeps-swallow,
  Keeps-bind,
)
