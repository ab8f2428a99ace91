-- ===== src/Log/Publish/Folders.antt =====
-- mkdirs, the folder and the folders above it.
use mathlib.Core.List.{append_assoc, append-nil}
use mathlib.Core.Path.{refl, subst}
use ant_media_server_confere.Base.{
  ℕ, ◌≡◌, sym, ap, ◌∙◌, ◌⊎◌, inl, inr, Bool, true, false, ◌||◌, List, [], ◌∷◌, ◌++◌, arith,
  Bool-cases,
}
use ant_media_server_confere.Base.Exec.{Outcome, done, emit, when, pure, bind_done, ◌>>=◌}
use ant_media_server_confere.Platform.Int.{below}
use ant_media_server_confere.Log.Bytes.{Bytes, length, ◌=ℕ◌}
use ant_media_server_confere.Log.System.{SysCall, sys_access, sys_mkdir, Os, LogState, Action, ask}
use ant_media_server_confere.Log.Publish.{make_missing, make_prefixes, mkdirs}

-- A name of one folder.
abbrev pub has_slash : Bytes → Bool
has_slash [] = false
has_slash (c ∷ s) = c =ℕ b'/' || has_slash s

abbrev pub child : Bytes → Bytes → Bytes
child parent name = parent ++ (b'/' ∷ name)

-- access finds the folder, or it is the root, of which nothing is written before the '/'.
abbrev pub There : Os → Bytes → List SysCall → Type 0
There os p cs = (p ≡ []) ⊎ (os.access (sys_access p ∷ cs) ≡ true)

-- A file system on which mkdir of a folder works where the one above it is there, and on which a folder
-- stays when access is called.
pub record MakesFolders (os : Os) : Type 0 where
  pub made :
      (parent name : Bytes) (cs : List SysCall)
      → has_slash name ≡ false
      → There os parent cs
      → os.access (sys_access (child parent name) ∷ sys_mkdir (child parent name) ∷ cs) ≡ true
  pub stays :
      (p q : Bytes) (cs : List SysCall)
      → os.access (sys_access p ∷ cs) ≡ true
      → os.access (sys_access p ∷ sys_access q ∷ cs) ≡ true

or_false : (a b : Bool) → a || b ≡ false → (a ≡ false) × (b ≡ false)
or_false true b h = cc
or_false false b h = (refl, h)

module _ (os : Os) (works : MakesFolders os) where
  -- The function returns, the state is as it was, and the folder is there.
  abbrev Makes : Action (Unit {0}) → Bytes → LogState → List SysCall → Type 0
  Makes m p s cs =
      (ds : List SysCall) × ((m s cs ≡ done tt s ds) × (os.access (sys_access p ∷ ds) ≡ true))

  There-stays : (p q : Bytes) (cs : List SysCall) → There os p cs → There os p (sys_access q ∷ cs)
  There-stays p q cs (inl root) = inl root
  There-stays p q cs (inr there) = inr (works.stays p q cs there)

  make_missing-Makes :
      (parent name : Bytes) (s : LogState) (cs : List SysCall)
      → has_slash name ≡ false
      → There os parent cs
      → Makes (make_missing os (child parent name)) (child parent name) s cs
  unfolding make_missing ask when emit pure ◌>>=◌
  make_missing-Makes parent name s cs one above =
      elim (Bool-cases (os.access (sys_access (child parent name) ∷ cs))) [
        | inl there ↦
            rw there (_, (refl, works.stays (child parent name) (child parent name) cs there))
        | inr missing ↦ rw missing (
          _,
          (
            refl,
            works.made parent name (sys_access (child parent name) ∷ cs) one
                (There-stays parent (child parent name) cs above),
          ),
        )
      ]

  has_slash-append :
      (name : Bytes) (c : ℕ)
      → has_slash name ≡ false
      → c =ℕ b'/' ≡ false
      → has_slash (name ++ c ∷ []) ≡ false
  has_slash-append [] c one plain = rw (has_slash, plain) refl
  has_slash-append (d ∷ name) c one plain =
      let (other, more) = or_false (d =ℕ b'/') (has_slash name) one in
      rw other (has_slash-append name c more plain)

  make_missing_lem :
      (before parent name : Bytes) (s : LogState) (cs : List SysCall)
      → before ≡ child parent name
      → has_slash name ≡ false
      → There os parent cs
      → Makes (make_missing os before) before s cs
  make_missing_lem before parent name s cs e one above =
      subst (λ b. Makes (make_missing os b) b s cs) (sym e)
        (make_missing-Makes parent name s cs one above)

  -- What the walk has done at its end. The folder at the end may still be missing, but not the one above it.
  abbrev Walked : Outcome LogState SysCall (Unit {0}) → Bytes → LogState → Type 0
  Walked o path s =
      (ds : List SysCall) × (above : Bytes) × (last : Bytes) × ((o ≡ done tt s ds)
        × ((path ≡ child above last) × ((has_slash last ≡ false) × There os above ds)))

  plain_lem :
      (before rest : Bytes) (c : ℕ) (s : LogState) (cs : List SysCall)
      → c =ℕ b'/' ≡ false
      → make_prefixes os before (c ∷ rest) s cs ≡ make_prefixes os (before ++ c ∷ []) rest s cs
  unfolding make_prefixes when pure ◌>>=◌
  plain_lem before rest c s cs plain = rw plain refl

  slash_lem :
      (before rest : Bytes) (c : ℕ) (s : LogState) (cs ds : List SysCall)
      → c =ℕ b'/' ≡ true
      → make_missing os before s cs ≡ done tt s ds
      → make_prefixes os before (c ∷ rest) s cs ≡ make_prefixes os (before ++ c ∷ []) rest s ds
  unfolding make_prefixes when
  slash_lem before rest c s cs ds slash e =
      rw slash
        (bind_done (make_missing os before) (λ _. make_prefixes os (before ++ c ∷ []) rest) s cs e)

  prefixes-Walked :
      (before parent name rest : Bytes) (s : LogState) (cs : List SysCall)
      → before ≡ child parent name
      → has_slash name ≡ false
      → There os parent cs
      → Walked (make_prefixes os before rest s cs) (before ++ rest) s
  unfolding make_prefixes pure
  prefixes-Walked before parent name [] s cs e one there =
      (cs, parent, name, (refl, (append-nil before ∙ e, (one, there))))
  prefixes-Walked before parent name (c ∷ rest) s cs e one there = elim (Bool-cases (c =ℕ b'/')) [
    | inr plain ↦
        let (ds, above, last, (f, (path, more))) =
          prefixes-Walked (before ++ c ∷ []) parent (name ++ c ∷ []) rest s cs
            (ap (λ b. b ++ c ∷ []) e ∙ append_assoc parent (b'/' ∷ name) (c ∷ []))
            (has_slash-append name c one plain) there in
        (
          ds,
          above,
          last,
          (
            plain_lem before rest c s cs plain ∙ f,
            (sym (append_assoc before (c ∷ []) rest) ∙ path, more),
          ),
        )
    | inl slash ↦
        let (es, (g, made)) = make_missing_lem before parent name s cs e one there in
        let (ds, above, last, (f, (path, more))) =
          prefixes-Walked (before ++ c ∷ []) before [] rest s es
            (ap (λ d. before ++ d ∷ []) (ground arith)) refl (inr made) in
        (
          ds,
          above,
          last,
          (
            slash_lem before rest c s cs es slash g ∙ f,
            (sym (append_assoc before (c ∷ []) rest) ∙ path, more),
          ),
        )
  ]

  make_missing-done :
      (p : Bytes) (s : LogState) (cs : List SysCall)
      → (ds : List SysCall) × (make_missing os p s cs ≡ done tt s ds)
  unfolding make_missing ask when emit pure ◌>>=◌
  make_missing-done p s cs = elim (Bool-cases (os.access (sys_access p ∷ cs))) [
    | inl there ↦ rw there (_, refl)
    | inr missing ↦ rw missing (_, refl)
  ]

  mkdirs_lem :
      (path : Bytes) (s : LogState) (cs ds : List SysCall)
      → below 0 (length path) ≡ true
      → make_prefixes os [] path s cs ≡ done tt s ds
      → mkdirs os path s cs ≡ make_missing os path s ds
  unfolding mkdirs when
  mkdirs_lem path s cs ds some_text e =
      rw some_text (bind_done (make_prefixes os [] path) (λ _. make_missing os path) s cs e)

  -- On a file system on which mkdir makes a folder if the one above it is there, and a folder
  -- stays there when access is called: mkdirs of a path that starts with a slash returns, and
  -- access finds the folder of this path then, whatever was there before.
  pub mkdirs-Makes :
      (rest : Bytes) (s : LogState) (cs : List SysCall)
      → (ds : List SysCall) × ((mkdirs os (b'/' ∷ rest) s cs ≡ done tt s ds)
          × (os.access (sys_access (b'/' ∷ rest) ∷ ds) ≡ true))
  mkdirs-Makes rest s cs =
      let (es, g) = make_missing-done [] s cs in
      let (ds, above, last, (f, (path, (one, there)))) =
        prefixes-Walked (b'/' ∷ []) [] [] rest s es refl refl (inl refl) in
      let (fs, (h, made)) = make_missing_lem (b'/' ∷ rest) above last s ds path one there in
      (
        fs,
        (
          mkdirs_lem (b'/' ∷ rest) s cs ds (ground arith)
                (slash_lem [] rest b'/' s cs es refl g ∙ f)
              ∙ h,
          made,
        ),
      )
