-- ===== src/Log/Oldest.antt =====
-- The search of RemoveTheOldestLog for the oldest entry.
pub mod Removed
use mathlib.Core.Path.{refl}
use mathlib.Core.List.{Memᴰ}
use mathlib.Core.List.Memᴰ
use mathlib.Core.Option.{some-injective}
use mathlib.Core.Path.{subst}
use ant_media_server_confere.Base.{
  ℕ, ◌≡◌, ◌≢◌, sym, ap, ◌∙◌, ◌⊎◌, inl, inr, Bool, true, false, not, ◌&&◌, Option, none, some, List,
  [], ◌∷◌, ◌++◌, arith, Bool-cases, if◌then◌else◌,
}
use ant_media_server_confere.Platform.Int.{ℤ, pos, negsuc, below, ltb_ℤ, eqb_ℤ}
use ant_media_server_confere.Log.Bytes.{Bytes, bytes}
use ant_media_server_confere.Log.System.{
  SysCall, sys_write, sys_system, sys_closedir, sys_sync, Entry, EntryType, Clock, Os, LogState,
}
use ant_media_server_confere.Base.Exec.{Outcome, done, thrown, emit, when, pure, ◌>>=◌, ◌>>◌}
use ant_media_server_confere.Log.Old.{midnight, get_debug_log_payload, note}
use ant_media_server_confere.Log.Expired.{
  dated_if, older, find_oldest, is_nil, remove_found, remove_oldest_in,
}

-- `a` is not later than `b`.
abbrev pub NotAfter : ℤ → ℤ → Type 0
NotAfter a b = ltb_ℤ b a ≡ false

NotAfter-self : (a : ℤ) → NotAfter a a
NotAfter-self (pos a) = ground arith
NotAfter-self (negsuc a) = ground arith

NotAfter-trans : (a b c : ℤ) → NotAfter a b → NotAfter b c → NotAfter a c
NotAfter-trans (pos a) (pos b) (pos c) h k = ground arith
NotAfter-trans (pos a) (pos b) (negsuc c) h k = cc
NotAfter-trans (pos a) (negsuc b) (pos c) h k = cc
NotAfter-trans (pos a) (negsuc b) (negsuc c) h k = cc
NotAfter-trans (negsuc a) (pos b) (pos c) h k = refl
NotAfter-trans (negsuc a) (pos b) (negsuc c) h k = cc
NotAfter-trans (negsuc a) (negsuc b) (pos c) h k = refl
NotAfter-trans (negsuc a) (negsuc b) (negsuc c) h k = ground arith

NotAfter-before : (a b : ℤ) → ltb_ℤ a b ≡ true → NotAfter a b
NotAfter-before (pos a) (pos b) h = ground arith
NotAfter-before (pos a) (negsuc b) h = cc
NotAfter-before (negsuc a) (pos b) h = refl
NotAfter-before (negsuc a) (negsuc b) h = ground arith

before_trans : (a b c : ℤ) → ltb_ℤ a b ≡ true → NotAfter b c → ltb_ℤ a c ≡ true
before_trans (pos a) (pos b) (pos c) h k = ground arith
before_trans (pos a) (pos b) (negsuc c) h k = cc
before_trans (pos a) (negsuc b) c h k = cc
before_trans (negsuc a) (pos b) (pos c) h k = refl
before_trans (negsuc a) (pos b) (negsuc c) h k = cc
before_trans (negsuc a) (negsuc b) (pos c) h k = refl
before_trans (negsuc a) (negsuc b) (negsuc c) h k = ground arith

pub before-eqb : (a b : ℤ) → ltb_ℤ a b ≡ true → eqb_ℤ a b ≡ false
before-eqb (pos a) (pos b) h = ground arith
before-eqb (pos a) (negsuc b) h = refl
before-eqb (negsuc a) (pos b) h = refl
before-eqb (negsuc a) (negsuc b) h = ground arith

module _ (os : Os) (path : Bytes) where
  -- What was found: the best so far, or an entry of the list that is older than it.
  abbrev pub IsFrom : List Entry → ℤ × Bytes → ℤ × Bytes → Type 0
  IsFrom entries best found =
      (found ≡ best)
      ⊎ ((e : Entry) × (Memᴰ e entries
            × ((dated_if os e.type e.name ≡ some found.0)
                × ((found.1 ≡ path ++ e.name) × (ltb_ℤ found.0 best.0 ≡ true)))))

  -- No entry of the list is older.
  abbrev pub NoOlder : ℤ → List Entry → Type 0
  NoOlder time entries =
      (e : Entry) → Memᴰ e entries → (t : ℤ) → dated_if os e.type e.name ≡ some t → NotAfter time t

  -- What one entry makes of the best one so far.
  older-IsFrom :
      (e : Entry) (date : Option ℤ) (entries : List Entry) (best : ℤ × Bytes)
      → dated_if os e.type e.name ≡ date
      → IsFrom (e ∷ entries) best (older path e.name date best)
  older-IsFrom e none entries best h = inl refl
  older-IsFrom e (some time) entries best h = elim (Bool-cases (ltb_ℤ time best.0)) [
    | inl before ↦ rw before (inr (e, (Memᴰ.head refl, (h, (refl, before)))))
    | inr after ↦ rw after (inl refl)
  ]

  older-NotAfter :
      (name : Bytes) (date : Option ℤ) (best : ℤ × Bytes)
      → NotAfter (older path name date best).0 best.0
  older-NotAfter name none best = NotAfter-self best.0
  older-NotAfter name (some time) best = elim (Bool-cases (ltb_ℤ time best.0)) [
    | inl before ↦ rw before (NotAfter-before time best.0 before)
    | inr after ↦ rw after (NotAfter-self best.0)
  ]

  older-date :
      (name : Bytes) (date : Option ℤ) (best : ℤ × Bytes) (t : ℤ)
      → date ≡ some t
      → NotAfter (older path name date best).0 t
  older-date name none best t e = cc
  older-date name (some time) best t e = elim (Bool-cases (ltb_ℤ time best.0)) [
    | inl before ↦
        rw before (subst (λ u. NotAfter time u) (some-injective _ _ e) (NotAfter-self time))
    | inr after ↦ rw after (subst (λ u. NotAfter best.0 u) (some-injective _ _ e) after)
  ]

  abbrev next : Entry → ℤ × Bytes → ℤ × Bytes
  next e best = older path e.name (dated_if os e.type e.name) best

  find_oldest-NotAfter :
      (entries : List Entry) (best : ℤ × Bytes)
      → NotAfter (find_oldest os path entries best).0 best.0
  unfolding find_oldest
  find_oldest-NotAfter [] best = NotAfter-self best.0
  find_oldest-NotAfter (e ∷ entries) best =
      NotAfter-trans (find_oldest os path entries (next e best)).0 (next e best).0 best.0
        (find_oldest-NotAfter entries (next e best))
        (older-NotAfter e.name (dated_if os e.type e.name) best)

  pub find_oldest-NoOlder :
      (entries : List Entry) (best : ℤ × Bytes)
      → NoOlder (find_oldest os path entries best).0 entries
  unfolding find_oldest
  find_oldest-NoOlder [] best d (m) t h = absurd (Memᴰ.not-nil m)
  find_oldest-NoOlder (e ∷ entries) best d (Memᴰ.tail m) t h =
      find_oldest-NoOlder entries (next e best) d m t h
  find_oldest-NoOlder (e ∷ entries) best d (Memᴰ.head same) t h =
      NotAfter-trans (find_oldest os path entries (next e best)).0 (next e best).0 t
        (find_oldest-NotAfter entries (next e best))
        (older-date e.name (dated_if os e.type e.name) best t
          (subst (λ x. dated_if os x.type x.name ≡ some t) same h))

  IsFrom-later :
      (e : Entry) (entries : List Entry) (best middle found : ℤ × Bytes)
      → IsFrom (e ∷ entries) best middle
      → NotAfter middle.0 best.0
      → IsFrom entries middle found
      → IsFrom (e ∷ entries) best found
  IsFrom-later e entries best middle found from not_after (inl same) =
      subst (λ f. IsFrom (e ∷ entries) best f) (sym same) from
  IsFrom-later e entries best middle found from not_after (inr (d, (m, (date, (name, before))))) =
      inr (d, (Memᴰ.tail m, (date, (name, before_trans found.0 middle.0 best.0 before not_after))))

  pub find_oldest-IsFrom :
      (entries : List Entry) (best : ℤ × Bytes)
      → IsFrom entries best (find_oldest os path entries best)
  unfolding find_oldest
  find_oldest-IsFrom [] best = inl refl
  find_oldest-IsFrom (e ∷ entries) best =
      IsFrom-later e entries best (next e best) _
        (older-IsFrom e (dated_if os e.type e.name) entries best refl)
        (older-NotAfter e.name (dated_if os e.type e.name) best) (find_oldest-IsFrom entries _)
