-- ===== src/Log/Returns.antt =====
-- What it means that a function of Log.cpp returns, and the rules for it.
pub mod Lines
pub mod Old
pub mod Lock
pub mod Publish
pub mod Dated
pub mod Macro
use mathlib.Core.Path.{refl}
use ant_media_server_confere.Base.{
  ap, ◌≡◌, Bool, true, false, Option, none, some, List, [], ◌∷◌, if◌then◌else◌,
}
use ant_media_server_confere.Base.Exec.{
  Exec, Outcome, done, thrown, pure, gets, modify, emit, observe, when, ◌>>=◌,
}
use ant_media_server_confere.Log.System.{SysCall, LogState, Action, ask}

module _ {A : Type 0} where
  -- The outcome is a result, and `Q` holds of it and of the state.
  abbrev pub Ends : (A → LogState → Type 0) → Outcome LogState SysCall A → Type 0
  Ends Q (done a s cs) = Q a s
  Ends Q (thrown s cs) = ⊥

  -- From a state with `P`, the function returns, and `Q` holds of the result and of the state.
  pub record Returns (P : LogState → Type 0) (m : Action A) (Q : A → LogState → Type 0)
      : Type 0 where
    pub at : (s : LogState) (cs : List SysCall) → P s → Ends Q (m s cs)

  -- From a state with `P`, the function returns with `P`.
  pub record Stays (P : LogState → Type 0) (m : Action A) : Type 0 where
    pub stay : (s : LogState) (cs : List SysCall) → P s → Ends (λ _. P) (m s cs)

module _ {P : LogState → Type 0} where
  pub Stays-emit : (c : SysCall) → Stays P (emit c)
  unfolding emit
  Stays-emit c = record { stay = λ s cs h. h }

  pub Stays-ask : {A : Type 0} (c : SysCall) (f : List SysCall → A) → Stays P (ask c f)
  unfolding ask
  Stays-ask c f = record { stay = λ s cs h. h }

  pub Stays-observe : {A : Type 0} (f : List SysCall → A) → Stays P (observe f)
  unfolding observe
  Stays-observe f = record { stay = λ s cs h. h }

  pub Stays-gets : {A : Type 0} (f : LogState → A) → Stays P (gets f)
  unfolding gets
  Stays-gets f = record { stay = λ s cs h. h }

  pub Stays-pure : {A : Type 0} (a : A) → Stays P (pure a)
  unfolding pure
  Stays-pure a = record { stay = λ s cs h. h }

  pub Returns-result :
      {A : Type 0} {Q : A → LogState → Type 0} (a : A)
      → ((s : LogState) → P s → Q a s)
      → Returns P (pure a) Q
  unfolding pure
  Returns-result a k = record { at = λ s cs h. k s h }

  pub Returns-modify :
      {Q : LogState → Type 0} (f : LogState → LogState)
      → ((s : LogState) → P s → Q (f s))
      → Returns P (modify f) (λ _. Q)
  unfolding modify
  Returns-modify f k = record { at = λ s cs h. k s h }

  pub Stays-when : (b : Bool) (m : Action (Unit {0})) → Stays P m → Stays P (when b m)
  unfolding when pure
  Stays-when true m k = k
  Stays-when false m k = record { stay = λ s cs h. h }

  pub Returns-if :
      {A : Type 0} {Q : A → LogState → Type 0} (b : Bool) (m n : Action A)
      → Returns P m Q
      → Returns P n Q
      → Returns P (if b then m else n) Q
  Returns-if true m n j k = j
  Returns-if false m n j k = k

  pub Stays-if :
      {A : Type 0} (b : Bool) (m n : Action A)
      → Stays P m
      → Stays P n
      → Stays P (if b then m else n)
  Stays-if true m n j k = j
  Stays-if false m n j k = k

  pub Returns-Stays : {A : Type 0} {m : Action A} → Stays P m → Returns P m (λ _. P)
  Returns-Stays k = record { at = k.stay }

module _ {A B : Type 0} where
  bind-Ends :
      {P : LogState → Type 0} {Q : B → LogState → Type 0} (f : A → Action B)
      (o : Outcome LogState SysCall A)
      → ((a : A) → Returns P (f a) Q)
      → Ends (λ _. P) o
      → Ends Q (elim o [ done a s cs ↦ f a s cs | thrown s cs ↦ thrown s cs ])
  bind-Ends f (done a s cs) k h = (k a).at s cs h
  bind-Ends f (thrown s cs) k h = absurd h

  pub Returns-bind :
      {P P' : LogState → Type 0} {Q : B → LogState → Type 0} (m : Action A) (f : A → Action B)
      → Returns P m (λ _. P')
      → ((a : A) → Returns P' (f a) Q)
      → Returns P (m >>= f) Q
  unfolding ◌>>=◌
  Returns-bind m f j k = record { at = λ s cs h. bind-Ends f (m s cs) k (j.at s cs h) }

  pub Stays-bind :
      {P : LogState → Type 0} (m : Action A) (f : A → Action B)
      → Stays P m
      → ((a : A) → Stays P (f a))
      → Stays P (m >>= f)
  unfolding ◌>>=◌
  Stays-bind m f j k = record {
    stay = λ s cs h. bind-Ends f (m s cs) (λ a. Returns-Stays (k a)) (j.stay s cs h);
  }

-- What a function that leaves the state alone has done.
pub Ends-same :
    {A : Type 0} (s : LogState) (o : Outcome LogState SysCall A)
    → Ends (λ _ t. t ≡ s) o
    → (a : A) × (ds : List SysCall) × (o ≡ done a s ds)
Ends-same s (done a t ds) e = (a, ds, ap (λ u. done a u ds) e)
Ends-same s (thrown t ds) h = absurd h

pub ruleset stays_rules =
    (Stays-emit, Stays-ask, Stays-observe, Stays-gets, Stays-pure, Stays-when, Stays-if, Stays-bind)
