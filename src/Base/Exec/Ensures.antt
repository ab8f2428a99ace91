-- ===== src/Base/Exec/Ensures.antt =====
-- Contracts of methods: from `P`, the method returns with `Q`, or throws with `E`.
use mathlib.Core.Path.{◌≡◌, refl}
use mathlib.Core.List.{List}
use ant_media_server_confere.Base.Exec.{
  Exec, Outcome, done, thrown, state, calls, pure, gets, modify, ◌>>=◌,
}
use ant_media_server_confere.Base.Exec.Keeps.{Keeps}

module _ {ℓ} {S C A : Type ℓ} where
  abbrev pub Post : (A → S → List C → Type ℓ) → (S → List C → Type ℓ) → Outcome S C A → Type ℓ
  Post Q E (done a s cs) = Q a s cs
  Post Q E (thrown s cs) = E s cs

  pub record Ensures (P : S → List C → Type ℓ) (m : Exec S C A) (Q : A → S → List C → Type ℓ)
      (E : S → List C → Type ℓ) : Type ℓ where
    pub apply : (s : S) (cs : List C) → P s cs → Post Q E (m s cs)

module _ {ℓ} {S C A : Type ℓ} (P : S → List C → Type ℓ) where
  Post-final : (o : Outcome S C A) → P (state o) (calls o) → Post (λ _. P) P o
  Post-final (done a s cs) h = h
  Post-final (thrown s cs) h = h

  final-Post : (o : Outcome S C A) → Post (λ _. P) P o → P (state o) (calls o)
  final-Post (done a s cs) h = h
  final-Post (thrown s cs) h = h

module _ {ℓ} {S C A : Type ℓ} {P : S → List C → Type ℓ} where
  pub Ensures-of_Keeps : {m : Exec S C A} → Keeps P m → Ensures P m (λ _. P) P
  Ensures-of_Keeps {m} k = record { apply = λ s cs h. Post-final P (m s cs) (k.at s cs h) }

  pub Keeps-of_Ensures : {m : Exec S C A} → Ensures P m (λ _. P) P → Keeps P m
  Keeps-of_Ensures {m} k = record { at = λ s cs h. final-Post P (m s cs) (k.apply s cs h) }

module _ {ℓ} {S C A : Type ℓ} where
  pub Post-weaken :
      {Q Q' : A → S → List C → Type ℓ} {E E' : S → List C → Type ℓ} (o : Outcome S C A)
      → ((a : A) (s : S) (cs : List C) → Q a s cs → Q' a s cs)
      → ((s : S) (cs : List C) → E s cs → E' s cs)
      → Post Q E o
      → Post Q' E' o
  Post-weaken (done a s cs) q e h = q a s cs h
  Post-weaken (thrown s cs) q e h = e s cs h

  pub Post-both :
      (Q Q' : A → S → List C → Type ℓ) (E E' : S → List C → Type ℓ) (o : Outcome S C A)
      → Post Q E o
      → Post Q' E' o
      → Post (λ a s cs. Q a s cs × Q' a s cs) (λ s cs. E s cs × E' s cs) o
  Post-both Q Q' E E' (done a s cs) h k = (h, k)
  Post-both Q Q' E E' (thrown s cs) h k = (h, k)

  pub Ensures-weaken :
      {P P' : S → List C → Type ℓ} {Q Q' : A → S → List C → Type ℓ} {E E' : S → List C → Type ℓ}
      {m : Exec S C A}
      → Ensures P m Q E
      → ((s : S) (cs : List C) → P' s cs → P s cs)
      → ((a : A) (s : S) (cs : List C) → Q a s cs → Q' a s cs)
      → ((s : S) (cs : List C) → E s cs → E' s cs)
      → Ensures P' m Q' E'
  Ensures-weaken {m} k p q e = record {
    apply = λ s cs h. Post-weaken (m s cs) q e (k.apply s cs (p s cs h));
  }

  pub Ensures-pure :
      {P E : S → List C → Type ℓ} (a : A) → Ensures P (pure a) (λ b s cs. P s cs × (b ≡ a)) E
  unfolding pure
  Ensures-pure a = record { apply = λ s cs h. (h, refl) }

  pub Ensures-gets :
      {P E : S → List C → Type ℓ} (f : S → A) → Ensures P (gets f) (λ a s cs. P s cs × (a ≡ f s)) E
  unfolding gets
  Ensures-gets f = record { apply = λ s cs h. (h, refl) }

module _ {ℓ} {S C : Type ℓ} where
  pub Ensures-modify :
      {P Q E : S → List C → Type ℓ} (f : S → S)
      → ((s : S) (cs : List C) → P s cs → Q (f s) cs)
      → Ensures P (modify f) (λ _. Q) E
  unfolding modify
  Ensures-modify f h = record { apply = h }

module _ {ℓ} {S C A B : Type ℓ} where
  bind-Post :
      {Q : A → S → List C → Type ℓ} {Q' : B → S → List C → Type ℓ} {E : S → List C → Type ℓ}
      (f : A → Exec S C B) (o : Outcome S C A)
      → Post Q E o
      → ((a : A) → Ensures (Q a) (f a) Q' E)
      → Post Q' E (elim o [ done a s cs ↦ f a s cs | thrown s cs ↦ thrown s cs ])
  bind-Post f (done a s cs) h k = (k a).apply s cs h
  bind-Post f (thrown s cs) h k = h

  pub Ensures-bind :
      {P E : S → List C → Type ℓ} {Q : A → S → List C → Type ℓ} {Q' : B → S → List C → Type ℓ}
      {m : Exec S C A} {f : A → Exec S C B}
      → Ensures P m Q E
      → ((a : A) → Ensures (Q a) (f a) Q' E)
      → Ensures P (m >>= f) Q' E
  unfolding ◌>>=◌
  Ensures-bind {m} {f} km kf = record {
    apply = λ s cs h. bind-Post f (m s cs) (km.apply s cs h) kf;
  }
