-- ===== src/Log/Oldest/Removed.antt =====
-- What RemoveTheOldestLog removes from a folder.
use mathlib.Core.List.{Memᴰ}
use mathlib.Core.Path.{refl, subst}
use ant_media_server_confere.Base.{
  ◌≡◌, sym, ap, ◌∙◌, ◌⊎◌, inl, inr, true, false, some, List, [], ◌∷◌, ◌++◌, Bool-cases,
}
use ant_media_server_confere.Base.Exec.{Outcome, done, emit, when, pure, bind_done, ◌>>=◌, ◌>>◌}
use ant_media_server_confere.Platform.Int.{ℤ, ltb_ℤ, eqb_ℤ}
use ant_media_server_confere.Log.Bytes.{Bytes, bytes}
use ant_media_server_confere.Log.System.{
  SysCall, sys_write, sys_system, sys_closedir, sys_sync, Entry, Clock, Os, LogState,
}
use ant_media_server_confere.Log.Old.{midnight, get_debug_log_payload, note}
use ant_media_server_confere.Log.Expired.{
  dated_if, find_oldest, is_nil, remove_found, remove_oldest_in,
}
use ant_media_server_confere.Log.Oldest.{
  NoOlder, IsFrom, before-eqb, find_oldest-NoOlder, find_oldest-IsFrom,
}

is_nil-append : (p q : Bytes) → is_nil p ≡ false → is_nil (p ++ q) ≡ false
is_nil-append [] q h = cc
is_nil-append (c ∷ p) q h = refl

module _ (os : Os) (path : Bytes) where
  -- The calls of a removal.
  abbrev pub removed : Bytes → Clock → Bytes → List SysCall → List SysCall
  removed log_path clock target cs =
      sys_write (bytes "[RemoveTheOldestLog]remove the oldest log path = " ++ path ++ bytes "\n")
        log_path
      ∷ sys_system (bytes "rm -rf " ++ target)
      ∷ sys_write (bytes "rm -rf " ++ target) log_path
      ∷ sys_write (get_debug_log_payload clock) log_path
      ∷ cs

  -- Either there is no dated entry before today, and nothing is removed, or one entry that is dated
  -- before today, and none is older, is removed.
  abbrev pub RemovesOldest :
      Bytes
      → Clock
      → List Entry
      → LogState
      → List SysCall
      → Outcome LogState SysCall (Unit {0})
      → Type 0
  RemovesOldest log_path clock entries s cs o =
      (NoOlder os path (midnight clock) entries
        × (o ≡ done tt s (sys_sync ∷ sys_closedir path ∷ cs)))
      ⊎ ((e : Entry) × (t : ℤ) × (Memᴰ e entries
            × ((dated_if os e.type e.name ≡ some t)
                × ((ltb_ℤ t (midnight clock) ≡ true)
                    × (NoOlder os path t entries
                        × (o
                            ≡ done tt s (
                                sys_sync
                                ∷ sys_closedir path
                                ∷ removed log_path clock (path ++ e.name) cs)))))))

  found_lem :
      (log_path : Bytes) (clock : Clock) (found : ℤ × Bytes) (s : LogState) (cs : List SysCall)
      → eqb_ℤ found.0 (midnight clock) ≡ false
      → is_nil found.1 ≡ false
      → remove_found os log_path path clock found s cs
        ≡ done tt s (removed log_path clock found.1 cs)
  unfolding remove_found when note emit ◌>>=◌
  found_lem log_path clock found s cs early there = rw (early, there) refl

  none_lem :
      (log_path : Bytes) (clock : Clock) (t : ℤ) (s : LogState) (cs : List SysCall)
      → remove_found os log_path path clock (t, []) s cs ≡ done tt s cs
  unfolding remove_found when note emit pure ◌>>=◌
  none_lem log_path clock t s cs = elim (Bool-cases (eqb_ℤ t (midnight clock))) [
    | inl today ↦ rw today refl
    | inr early ↦ rw early refl
  ]

  ends_lem :
      (log_path : Bytes) (clock : Clock) (entries : List Entry) (s : LogState)
      (cs ds : List SysCall)
      → remove_found os log_path path clock (find_oldest os path entries (midnight clock, [])) s cs
        ≡ done tt s ds
      → remove_oldest_in os log_path path clock (some entries) s cs
        ≡ done tt s (sys_sync ∷ sys_closedir path ∷ ds)
  unfolding remove_oldest_in emit ◌>>=◌
  ends_lem log_path clock entries s cs ds e =
      bind_done
        (remove_found os log_path path clock (find_oldest os path entries (midnight clock, [])))
        (λ _. emit (sys_closedir path) >> emit sys_sync) s cs e

  by_found :
      (log_path : Bytes) (clock : Clock) (entries : List Entry) (s : LogState) (cs : List SysCall)
      (found : ℤ × Bytes)
      → is_nil path ≡ false
      → find_oldest os path entries (midnight clock, []) ≡ found
      → NoOlder os path found.0 entries
      → IsFrom os path entries (midnight clock, []) found
      → RemovesOldest log_path clock entries s cs
          (remove_oldest_in os log_path path clock (some entries) s cs)
  by_found log_path clock entries s cs found there e no_older (inl same) = inl (
    subst (λ f. NoOlder os path f.0 entries) same no_older,
    ends_lem log_path clock entries s cs cs (
        subst (λ f. remove_found os log_path path clock f s cs ≡ done tt s cs) (sym (e ∙ same))
          (none_lem log_path clock (midnight clock) s cs)),
  )
  by_found log_path clock entries s cs found there e no_older
        (inr (d, (m, (date, (name, before))))) =
      inr (
        d,
        found.0,
        (
          m,
          (
            date,
            (
              before,
              (
                no_older,
                ends_lem log_path clock entries s cs (removed log_path clock (path ++ d.name) cs) (
                    subst
                      (λ f.
                        remove_found os log_path path clock f s cs
                        ≡ done tt s (removed log_path clock (path ++ d.name) cs))
                      (sym e)
                      (found_lem log_path clock found s cs
                          (before-eqb found.0 (midnight clock) before)
                          (subst (λ n. is_nil n ≡ false) (sym name)
                            (is_nil-append path d.name there))
                        ∙ ap (λ n. done tt s (removed log_path clock n cs)) name)),
              ),
            ),
          ),
        ),
      )

  -- RemoveTheOldestLog on the entries of a folder whose path is not empty: either no entry is
  -- dated before today, and nothing is removed, or it removes, by `rm -rf`, one entry that is
  -- dated before today and that no entry is older than. An entry is dated if it is a file or a
  -- folder whose name starts with a date.
  pub remove_oldest_in-RemovesOldest :
      (log_path : Bytes) (clock : Clock) (entries : List Entry) (s : LogState) (cs : List SysCall)
      → is_nil path ≡ false
      → RemovesOldest log_path clock entries s cs
          (remove_oldest_in os log_path path clock (some entries) s cs)
  remove_oldest_in-RemovesOldest log_path clock entries s cs there =
      by_found log_path clock entries s cs (find_oldest os path entries (midnight clock, [])) there
        refl (find_oldest-NoOlder os path entries (midnight clock, []))
        (find_oldest-IsFrom os path entries (midnight clock, []))
