-- ===== src/Base/Exec.antt =====
-- Methods that change an object, call a library and may throw. What was changed and called before
-- an exception stays so, hence state and calls come back beside the exception too.
pub mod Keeps
pub mod Ensures
pub mod Returns
use mathlib.Core.Path.{◌≡◌, refl, ap, ◌∙◌}
use mathlib.Core.Bool.{Bool, true, false}
use mathlib.Core.Option.{Option, none, some}
use mathlib.Core.List.{List, [], ◌∷◌}
use ant_media_server_confere.Base.Text.{if◌then◌else◌}

-- The end of a method: its result or an exception, the object, and the calls made, newest first.
pub data Outcome {ℓ} (S C A : Type ℓ) : Type ℓ where
  done : A → S → List C → Outcome S C A
  thrown : S → List C → Outcome S C A

abbrev pub Exec {ℓ} : Type ℓ → Type ℓ → Type ℓ → Type ℓ
Exec S C A = S → List C → Outcome S C A

module _ {ℓ} {S C A : Type ℓ} where
  abbrev pub state : Outcome S C A → S
  state (done a s cs) = s
  state (thrown s cs) = s

  abbrev pub calls : Outcome S C A → List C
  calls (done a s cs) = cs
  calls (thrown s cs) = cs

  abbrev pub has_thrown : Outcome S C A → Bool
  has_thrown (done a s cs) = false
  has_thrown (thrown s cs) = true

  unfoldable pub pure : A → Exec S C A
  pure a s cs = done a s cs

  -- A read of the object.
  unfoldable pub gets : (S → A) → Exec S C A
  gets f s cs = done (f s) s cs

  -- A library function that may throw and changes nothing.
  unfoldable pub try_pure : Option A → Exec S C A
  try_pure none s cs = thrown s cs
  try_pure (some a) s cs = done a s cs

module _ {ℓ} {S C : Type ℓ} where
  -- A write to the object.
  unfoldable pub modify : (S → S) → Exec S C (Unit {ℓ})
  modify f s cs = done tt (f s) cs

  abbrev answer : Bool → S → List C → Outcome S C (Unit {ℓ})
  answer true s cs = thrown s cs
  answer false s cs = done tt s cs

  -- A call of the library. Whether it throws may depend on all calls so far.
  unfoldable pub call : (List C → Bool) → C → Exec S C (Unit {ℓ})
  call throws c s cs = answer (throws (c ∷ cs)) s (c ∷ cs)

  pub call_done :
      (throws : List C → Bool) (c : C) (s : S) (cs : List C)
      → throws (c ∷ cs) ≡ false
      → call throws c s cs ≡ done tt s (c ∷ cs)
  unfolding call
  call_done throws c s cs e = rw e

  -- A call of a library function that does not throw, such as the setter of a callback.
  unfoldable pub emit : C → Exec S C (Unit {ℓ})
  emit c s cs = done tt s (c ∷ cs)

  -- A read of the library's state.
  unfoldable pub observe : {B : Type ℓ} → (List C → B) → Exec S C B
  observe f s cs = done (f cs) s cs

  abbrev pub no_more : Outcome S C (Unit {ℓ}) → Outcome S C (Unit {ℓ})
  no_more (done a s cs) = done a s cs
  no_more (thrown s cs) = done tt s cs

  -- `try { m } catch (...) {}`.
  unfoldable pub swallow : Exec S C (Unit {ℓ}) → Exec S C (Unit {ℓ})
  swallow m s cs = no_more (m s cs)

  no_more-answer : (b : Bool) (s : S) (cs : List C) → no_more (answer b s cs) ≡ done tt s cs
  no_more-answer true s cs = refl
  no_more-answer false s cs = refl

  pub swallow-call :
      (throws : List C → Bool) (c : C) (s : S) (cs : List C)
      → swallow (call throws c) s cs ≡ done tt s (c ∷ cs)
  unfolding swallow call
  swallow-call throws c s cs = no_more-answer (throws (c ∷ cs)) s (c ∷ cs)

module _ {ℓ} {S C A B : Type ℓ} where
  infixl 10 ◌>>=◌ ◌>>◌
  unfoldable pub ◌>>=◌ : Exec S C A → (A → Exec S C B) → Exec S C B
  ◌>>=◌ m f s cs = elim (m s cs) [ done a s' cs' ↦ f a s' cs' | thrown s' cs' ↦ thrown s' cs' ]

  abbrev pub ◌>>◌ : Exec S C A → Exec S C B → Exec S C B
  m >> n = m >>= λ _. n

module _ {ℓ} {S C A B : Type ℓ} where
  -- What a block does, from what its first part does.
  abbrev continue : (A → Exec S C B) → Outcome S C A → Outcome S C B
  continue f (done a s cs) = f a s cs
  continue f (thrown s cs) = thrown s cs

  bind-continue :
      (m : Exec S C A) (f : A → Exec S C B) (s : S) (cs : List C)
      → (m >>= f) s cs ≡ continue f (m s cs)
  unfolding ◌>>=◌
  bind-continue m f s cs = go (m s cs)
    where
      go :
          (o : Outcome S C A)
          → ◌≡◌ {A = Outcome S C B}
              (elim o [ done a s' cs' ↦ f a s' cs' | thrown s' cs' ↦ thrown s' cs' ])
              (continue f o)
      go (done a s' cs') = refl
      go (thrown s' cs') = refl

  pub bind_done :
      (m : Exec S C A) (f : A → Exec S C B) (s : S) (cs : List C) {a : A} {t : S} {ds : List C}
      → m s cs ≡ done a t ds
      → (m >>= f) s cs ≡ f a t ds
  bind_done m f s cs e = bind-continue m f s cs ∙ ap (continue f) e

  pub bind_thrown :
      (m : Exec S C A) (f : A → Exec S C B) (s : S) (cs : List C) {t : S} {ds : List C}
      → m s cs ≡ thrown t ds
      → (m >>= f) s cs ≡ thrown t ds
  bind_thrown m f s cs e = bind-continue m f s cs ∙ ap (continue f) e

module _ {ℓ} {S C : Type ℓ} where
  -- `if (b) m;`
  unfoldable pub when : Bool → Exec S C (Unit {ℓ}) → Exec S C (Unit {ℓ})
  unfolding pure
  when b m = if b then m else pure tt

module _ {ℓ} {S T C A : Type ℓ} where
  abbrev pub embed : (T → S) → Outcome T C A → Outcome S C A
  embed put (done a t cs) = done a (put t) cs
  embed put (thrown t cs) = thrown (put t) cs

  abbrev pub on_part : A → Option T → (T → S) → Exec T C A → S → List C → Outcome S C A
  on_part a none put m s cs = done a s cs
  on_part a (some t) put m s cs = embed put (m t cs)

  -- `if (part) return part->m(); return a;`, for a part that the object owns through a pointer.
  unfoldable pub with_part : A → (S → Option T) → (S → T → S) → Exec T C A → Exec S C A
  with_part a get put m s cs = on_part a (get s) (put s) m s cs
