-- ===== src/Log/Returns/Macro.antt =====
-- The macro DBG of Log.h, and the line that it hands over to DBGLogAndPublish.
use mathlib.Core.Path.{refl}
use ant_media_server_confere.Base.{
  ℕ, ◌≡◌, ◌∙◌, ap, ◌⊎◌, inl, inr, true, false, some, List, ◌++◌, Bool-cases,
}
use ant_media_server_confere.Base.Exec.{Outcome, done, pure, gets, observe, when, bind_done, ◌>>=◌}
use ant_media_server_confere.Platform.Int.{ℤ, ltb_ℤ}
use ant_media_server_confere.Log.Bytes.{Bytes}
use ant_media_server_confere.Log.System.{SysCall, Clock, Os, LogState}
use ant_media_server_confere.Log.Publish.{
  get_debug_level, position, total_size, dbg_text, dbg_log_and_publish, dbg,
}
use ant_media_server_confere.Log.Publish.Bounds.{dbg_text-fits}
use ant_media_server_confere.Log.Returns.Publish.{Published, dbg_log_and_publish-Published}

-- It returns.
abbrev Ended : Outcome LogState SysCall ℤ → Type 0
Ended o = (code : ℤ) × (t : LogState) × (ds : List SysCall) × (o ≡ done code t ds)

Published-Ended :
    (os : Os) (line path filename : Bytes) (clock : Clock) (s : LogState) (cs : List SysCall)
    (o : Outcome LogState SysCall ℤ)
    → Published os line path filename clock s cs o
    → Ended o
Published-Ended os line path filename clock s cs o (es, (e, inl (opened, end))) = (_, _, _, end)
Published-Ended os line path filename clock s cs o (es, (e, inr (failed, end))) = (_, _, _, end)

module _ (os : Os) (storage dbg_file nmea_file : Bytes) where
  -- What DBG does with a level that is not above gDebugLevel, and with a block.
  said_lem :
      (level : ℤ) (file : Bytes) (line : ℕ) (function text : Bytes) (s t : LogState)
      (cs ds : List SysCall) (code : ℤ)
      → ltb_ℤ s.debug_level level ≡ false
      → os.mallocs cs (total_size file line function text) ≡ true
      → dbg_log_and_publish os (some (dbg_text file line function text)) storage dbg_file s cs
        ≡ done code t ds
      → dbg os storage dbg_file nmea_file level file line function text s cs ≡ done tt t ds
  unfolding dbg get_debug_level gets observe when pure ◌>>=◌
  said_lem level file line function text s t cs ds code high block e =
      rw (high, block)
        (bind_done
          (dbg_log_and_publish os (some (dbg_text file line function text)) storage dbg_file)
          (λ code'. pure tt) s cs e)

  silent_lem :
      (level : ℤ) (file : Bytes) (line : ℕ) (function text : Bytes) (s : LogState)
      (cs : List SysCall)
      → ltb_ℤ s.debug_level level ≡ true
      → dbg os storage dbg_file nmea_file level file line function text s cs ≡ done tt s cs
  unfolding dbg get_debug_level gets when pure ◌>>=◌
  silent_lem level file line function text s cs low = rw low refl

  no_block_lem :
      (level : ℤ) (file : Bytes) (line : ℕ) (function text : Bytes) (s : LogState)
      (cs : List SysCall)
      → ltb_ℤ s.debug_level level ≡ false
      → os.mallocs cs (total_size file line function text) ≡ false
      → dbg os storage dbg_file nmea_file level file line function text s cs ≡ done tt s cs
  unfolding dbg get_debug_level gets observe when pure ◌>>=◌
  no_block_lem level file line function text s cs high block = rw (high, block) refl

  -- What DBG does: nothing where its level is above gDebugLevel or no block is given, and otherwise what
  -- DBGLogAndPublish of the position and the whole text does.
  abbrev pub Says :
      ℤ
      → Bytes
      → ℕ
      → Bytes
      → Bytes
      → LogState
      → List SysCall
      → Outcome LogState SysCall (Unit {0})
      → Type 0
  Says level file line function text s cs o =
      (((ltb_ℤ s.debug_level level ≡ true)
          ⊎ (os.mallocs cs (total_size file line function text) ≡ false))
        × (o ≡ done tt s cs))
      ⊎ (((ltb_ℤ s.debug_level level ≡ false)
            × (os.mallocs cs (total_size file line function text) ≡ true))
          × ((code : ℤ) × (t : LogState) × (ds : List SysCall) × ((dbg_log_and_publish os
                    (some (position file line function ++ text)) storage dbg_file s cs
                  ≡ done code t ds)
                × (o ≡ done tt t ds))))

  said-Says :
      (level : ℤ) (file : Bytes) (line : ℕ) (function text : Bytes) (s : LogState)
      (cs : List SysCall)
      → s.locked ≡ false
      → ltb_ℤ s.debug_level level ≡ false
      → os.mallocs cs (total_size file line function text) ≡ true
      → Says level file line function text s cs
          (dbg os storage dbg_file nmea_file level file line function text s cs)
  said-Says level file line function text s cs unlocked high block =
      let whole = (dbg_text-fits file line function text).0 in
      let (code, t, ds, e) = Published-Ended os _ storage dbg_file _ s cs _ (
        dbg_log_and_publish-Published os (position file line function ++ text) storage dbg_file s cs
          unlocked) in
      let e' = ap (λ l. dbg_log_and_publish os (some l) storage dbg_file s cs) whole ∙ e in
      inr (
        (high, block),
        (code, t, ds, (e, said_lem level file line function text s t cs ds code high block e')),
      )

  -- DBG, called while gDebugLock is free, does nothing where its level is above gDebugLevel or malloc gives
  -- no block, and otherwise what DBGLogAndPublish of the position and the whole text does, which
  -- returns.
  pub dbg-Says :
      (level : ℤ) (file : Bytes) (line : ℕ) (function text : Bytes) (s : LogState)
      (cs : List SysCall)
      → s.locked ≡ false
      → Says level file line function text s cs
          (dbg os storage dbg_file nmea_file level file line function text s cs)
  dbg-Says level file line function text s cs unlocked =
      elim (Bool-cases (ltb_ℤ s.debug_level level)) [
        | inl low ↦ inl (inl low, silent_lem level file line function text s cs low)
        | inr high ↦ elim (Bool-cases (os.mallocs cs (total_size file line function text))) [
          | inl block ↦ said-Says level file line function text s cs unlocked high block
          | inr none_given ↦
              inl (inr none_given, no_block_lem level file line function text s cs high none_given)
        ]
      ]
