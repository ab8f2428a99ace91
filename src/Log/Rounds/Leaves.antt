-- ===== src/Log/Rounds/Leaves.antt =====
-- The loop of dbg_log, and how many rounds it takes.
use mathlib.Core.Path.{refl}
use ant_media_server_confere.Base.{
  ℕ, zero, suc, ◌≡◌, ap, ◌∙◌, ◌⊎◌, inl, inr, Bool, true, false, Option, none, some, List, ◌∷◌,
  Bool-cases,
}
use ant_media_server_confere.Base.Exec.{Outcome, done, pure, emit, bind_done, ◌>>=◌, ◌>>◌}
use ant_media_server_confere.Platform.Int.{ℤ, pos, negsuc, below}
use ant_media_server_confere.Log.Bytes.{Bytes}
use ant_media_server_confere.Log.Bytes.Decimal.{same_self}
use ant_media_server_confere.Log.System.{
  SysCall, sys_stat, sys_access, sys_fopen, sys_system, Os, LogState, Action, ask,
}
use ant_media_server_confere.Log.Backup.{
  dbg_log_size_max, size_or_zero, backup_log_file, get_file_size,
}
use ant_media_server_confere.Log.Publish.{put_line, dbg_log}
use ant_media_server_confere.Log.Rounds.{touch_command, known, Works, backup_log_file-Gone}

module _ (os : Os) (path line : Bytes) where
  -- What the rounds ask the size of.
  abbrev size_at : List SysCall → ℕ
  size_at cs = size_or_zero (os.stat (sys_stat path ∷ sys_access path ∷ cs))

  -- The loop is left with a code of `fopen`.
  abbrev Leaves : Outcome LogState SysCall (Option ℤ) → LogState → Type 0
  Leaves o s =
      (code : ℤ) × (ds : List SysCall) × ((o ≡ done (some code) s ds)
        × ((code ≡ pos 0) ⊎ (code ≡ negsuc 0)))

  put_line-Leaves : (s : LogState) (cs : List SysCall) → Leaves (put_line os line path s cs) s
  unfolding put_line ask emit pure ◌>>=◌
  put_line-Leaves s cs = elim (Bool-cases (os.fopens (sys_fopen path ∷ cs))) [
    | inl opened ↦ rw opened (_, _, (refl, inl refl))
    | inr failed ↦ rw failed (_, _, (refl, inr refl))
  ]

  -- What a round does with a size.
  abbrev by_size : ℕ → Bool → Action (Option ℤ)
  by_size n large = elim large [
    | true ↦ (do backup_log_file os path; dbg_log os n line path)
    | false ↦ put_line os line path
  ]

  get_file_size_lem :
      (s : LogState) (cs : List SysCall)
      → get_file_size os (some path) s cs
        ≡ done (size_or_zero (os.stat (sys_stat path ∷ cs))) s (sys_stat path ∷ cs)
  unfolding get_file_size ask pure ◌>>=◌
  get_file_size_lem s cs = refl

  there_round :
      (n : ℕ) (s : LogState) (cs : List SysCall)
      → os.access (sys_access path ∷ cs) ≡ true
      → dbg_log os (suc n) line path s cs
        ≡ by_size n (below dbg_log_size_max (size_at cs)) s (sys_stat path ∷ sys_access path ∷ cs)
  unfolding dbg_log ask ◌>>=◌
  there_round n s cs there = rw there (
      bind_done (get_file_size os (some path)) (λ size. by_size n (below dbg_log_size_max size)) s
        (sys_access path ∷ cs) (get_file_size_lem s (sys_access path ∷ cs)))

  small_round :
      (n : ℕ) (s : LogState) (cs : List SysCall)
      → os.access (sys_access path ∷ cs) ≡ true
      → below dbg_log_size_max (size_at cs) ≡ false
      → Leaves (dbg_log os (suc n) line path s cs) s
  small_round n s cs there small =
      let (code, ds, (e, known_code)) = put_line-Leaves s (sys_stat path ∷ sys_access path ∷ cs) in
      (
        code,
        ds,
        (
          there_round n s cs there
              ∙ ap (λ b. by_size n b s (sys_stat path ∷ sys_access path ∷ cs)) small
              ∙ e,
          known_code,
        ),
      )

  missing_round :
      (n : ℕ) (s : LogState) (cs : List SysCall)
      → os.access (sys_access path ∷ cs) ≡ false
      → dbg_log os (suc n) line path s cs
        ≡ dbg_log os n line path s (sys_system (touch_command path) ∷ sys_access path ∷ cs)
  unfolding dbg_log ask emit ◌>>=◌
  missing_round n s cs missing = rw missing refl

  large_round :
      (n : ℕ) (s : LogState) (cs : List SysCall)
      → os.access (sys_access path ∷ cs) ≡ true
      → below dbg_log_size_max (size_at cs) ≡ true
      → (ds : List SysCall) × ((dbg_log os (suc n) line path s cs ≡ dbg_log os n line path s ds)
          × (known path ds ≡ some false))
  large_round n s cs there large =
      let (ds, (e, gone)) = backup_log_file-Gone os path s (sys_stat path ∷ sys_access path ∷ cs) in
      (
        ds,
        (
          there_round n s cs there
              ∙ ap (λ b. by_size n b s (sys_stat path ∷ sys_access path ∷ cs)) large
              ∙ bind_done (backup_log_file os path) (λ _. dbg_log os n line path) s _ e,
          gone,
        ),
      )

  -- The rounds from a file that is not there.
  gone_rounds :
      (n : ℕ) (s : LogState) (cs : List SysCall)
      → Works os path
      → os.access (sys_access path ∷ cs) ≡ false
      → Leaves (dbg_log os (suc (suc n)) line path s cs) s
  unfolding size_or_zero
  gone_rounds n s cs works missing =
      let there =
        works.access_is true (sys_system (touch_command path) ∷ sys_access path ∷ cs)
          (rw (same_self (touch_command path)) refl) in
      let (code, ds, (e, known_code)) =
        small_round n s (sys_system (touch_command path) ∷ sys_access path ∷ cs) there
          (rw (works.empty cs missing) refl) in
      (code, ds, (missing_round (suc n) s cs missing ∙ e, known_code))

  -- On a file system on which the log is gone after it is renamed, is there after `touch`, and is
  -- empty after `touch` has made it: the loop of dbg_log is left within three rounds, whatever the
  -- log is at first, and dbg_log returns 0, or -1 for a failure of fopen.
  pub dbg_log-Leaves :
      (s : LogState) (cs : List SysCall)
      → Works os path
      → (code : ℤ) × (ds : List SysCall) × ((dbg_log os 3 line path s cs ≡ done (some code) s ds)
          × ((code ≡ pos 0) ⊎ (code ≡ negsuc 0)))
  dbg_log-Leaves s cs works = elim (Bool-cases (os.access (sys_access path ∷ cs))) [
    | inr missing ↦ gone_rounds 1 s cs works missing
    | inl there ↦ elim (Bool-cases (below dbg_log_size_max (size_at cs))) [
      | inr small ↦ small_round 2 s cs there small
      | inl large ↦
          let (ds, (e, gone)) = large_round 2 s cs there large in
          let (code, es, (f, known_code)) =
            gone_rounds 0 s ds works (works.access_is false ds gone) in
          (code, es, (e ∙ f, known_code))
    ]
  ]

  -- Where access never finds the file, dbg_log runs out of every number of rounds: it never returns.
  pub dbg_log-never :
      (n : ℕ) (s : LogState) (cs : List SysCall)
      → ((ds : List SysCall) → os.access (sys_access path ∷ ds) ≡ false)
      → (ds : List SysCall) × (dbg_log os n line path s cs ≡ done none s ds)
  unfolding dbg_log pure
  dbg_log-never zero s cs missing = (cs, refl)
  dbg_log-never (suc n) s cs missing =
      let (ds, e) =
        dbg_log-never n s (sys_system (touch_command path) ∷ sys_access path ∷ cs) missing in
      (ds, missing_round n s cs (missing cs) ∙ e)
