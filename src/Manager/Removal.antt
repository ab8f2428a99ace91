-- ===== src/Manager/Removal.antt =====
-- What removePeerIfNotExist does: five maps forget the stream, all else stays.
use mathlib.Core.Path.{refl}
use ant_media_server_confere.Base.{
  ℕ, String, ◌≡◌, sym, ◌∙◌, false, Option, none, some, List, [], ◌∷◌, arith, ◌==◌, Bool-cases, inl,
  inr, if◌then◌else◌, is_empty,
}
use ant_media_server_confere.Base.Dict.{Dict, lookup, erase, lookup-erase}
use ant_media_server_confere.Base.Exec.{
  done, gets, modify, call, observe, when, bind_done, call_done, ◌>>=◌,
}
use ant_media_server_confere.Platform.{JsonLib, Rtc, Call, pc_close, dc_close}
use ant_media_server_confere.Manager.State.{Manager}
use ant_media_server_confere.Manager.Peers.{
  close_if_open, drop_local_channel, drop_remote_channel, drop_peer, remove_peer_if_not_exist,
}
use ant_media_server_confere.Manager.Events.{on_play_finished}

erase_absent {ℓ} : {V : Type ℓ} (k : String) (d : Dict V) → lookup k d ≡ none → erase k d ≡ d
unfolding lookup erase
erase_absent k [] h = refl
erase_absent k ((j, v) ∷ d) h = ground (arith, erase_absent k d)

-- `close` of a peer connection and of a data channel does not throw.
pub record ClosesQuietly (R : Rtc) : Type 0 where
  pub quiet_pc : (pc : ℕ) (cs : List Call) → R.throws (pc_close pc ∷ cs) ≡ false
  pub quiet_dc : (dc : ℕ) (cs : List Call) → R.throws (dc_close dc ∷ cs) ≡ false

abbrev pub forget : String → Manager → Manager
forget k m = record m {
  pcs = erase k m.pcs;
  played = erase k m.played;
  send_play = erase k m.send_play;
  local_data_channels = erase k m.local_data_channels;
  remote_data_channels = erase k m.remote_data_channels;
}

module _ (R : Rtc) (quiet : ClosesQuietly R) where
  close_if_open_returns :
      (dc : ℕ) (m : Manager) (cs : List Call)
      → (ds : List Call) × (close_if_open R dc m cs ≡ done tt m ds)
  unfolding close_if_open observe when ◌>>=◌ call
  close_if_open_returns dc m cs = elim (Bool-cases (R.dc_open cs dc)) [
    | inl e ↦ (dc_close dc ∷ cs, simp (e, quiet.quiet_dc dc cs))
    | inr e ↦ (cs, simp e)
  ]

  drop_local_returns :
      (k : String) (dc : Option ℕ) (m : Manager) (cs : List Call)
      → dc ≡ lookup k m.local_data_channels
      → (ds : List Call) × (drop_local_channel R k dc m cs
          ≡ done tt (record m { local_data_channels = erase k m.local_data_channels }) ds)
  unfolding drop_local_channel modify
  drop_local_returns k none m cs e = (cs, rw (erase_absent k m.local_data_channels (sym e)) refl)
  drop_local_returns k (some dc) m cs e =
      let (ds, p) = close_if_open_returns dc m cs in (ds, bind_done _ _ m cs p)

  drop_remote_returns :
      (k : String) (dc : Option ℕ) (m : Manager) (cs : List Call)
      → dc ≡ lookup k m.remote_data_channels
      → (ds : List Call) × (drop_remote_channel R k dc m cs
          ≡ done tt (record m { remote_data_channels = erase k m.remote_data_channels }) ds)
  unfolding drop_remote_channel modify
  drop_remote_returns k none m cs e = (cs, rw (erase_absent k m.remote_data_channels (sym e)) refl)
  drop_remote_returns k (some dc) m cs e =
      let (ds, p) = close_if_open_returns dc m cs in (ds, bind_done _ _ m cs p)

  drop_peer_returns :
      (k : String) (pc : Option ℕ) (m : Manager) (cs : List Call)
      → pc ≡ lookup k m.pcs
      → (ds : List Call) × (drop_peer R k pc m cs ≡ done tt (record m { pcs = erase k m.pcs }) ds)
  unfolding drop_peer modify
  drop_peer_returns k none m cs e = (cs, rw (erase_absent k m.pcs (sym e)) refl)
  drop_peer_returns k (some pc) m cs e =
      (pc_close pc ∷ cs, bind_done _ _ m cs (call_done R.throws _ m cs (quiet.quiet_pc pc cs)))

  -- If `close` does not throw, the method returns, the stream is gone from the five maps, and every
  -- other member is as it was.
  pub remove_peer_if_not_exist-forget :
      (k : String) (m : Manager) (cs : List Call)
      → (ds : List Call) × (remove_peer_if_not_exist R k m cs ≡ done tt (forget k m) ds)
  unfolding remove_peer_if_not_exist gets modify
  remove_peer_if_not_exist-forget k m cs =
      let (cs₁, p) = drop_local_returns k (lookup k m.local_data_channels) m cs refl in
      let m₁ : Manager = record m { local_data_channels = erase k m.local_data_channels } in
      let (cs₂, q) = drop_remote_returns k (lookup k m.remote_data_channels) m₁ cs₁ refl in
      let m₂ : Manager = record m₁ { remote_data_channels = erase k m.remote_data_channels } in
      let (cs₃, r) = drop_peer_returns k (lookup k m.pcs) m₂ cs₂ refl in
      (
        cs₃,
        bind_done _ _ m cs refl
            ∙ bind_done _ _ m cs p
            ∙ bind_done _ _ m₁ cs₁ refl
            ∙ bind_done _ _ m₁ cs₁ q
            ∙ bind_done _ _ m₂ cs₂ refl
            ∙ bind_done _ _ m₂ cs₂ r,
      )

-- The other streams keep their entries, and the stream has none.
pub lookup-forget :
    (j k : String) (m : Manager)
    → (lookup j (forget k m).pcs ≡ (if j == k then none else lookup j m.pcs))
      × (lookup j (forget k m).send_play ≡ (if j == k then none else lookup j m.send_play))
      × (lookup j (forget k m).local_data_channels
          ≡ (if j == k then none else lookup j m.local_data_channels))
lookup-forget j k m =
    (lookup-erase j k m.pcs, lookup-erase j k m.send_play, lookup-erase j k m.local_data_channels)

-- play_finished of a stream that is not the room.
module _ (J : JsonLib) (R : Rtc) (quiet : ClosesQuietly R) where
  -- If `close` does not throw, the end of a named stream other than the room is handled to the end:
  -- the five maps forget the stream, so that it can be asked for again, and nothing else changes.
  pub on_play_finished-forget :
      (k : String) (m : Manager) (cs : List Call)
      → is_empty k ≡ false
      → (k == m.room_id) ≡ false
      → (ds : List Call) × (on_play_finished J R k m cs ≡ done tt (forget k m) ds)
  unfolding on_play_finished gets when
  on_play_finished-forget k m cs named other =
      let (ds, p) = remove_peer_if_not_exist-forget R quiet k m cs in
      (ds, simp named (bind_done _ _ m cs p ∙ bind_done _ _ (forget k m) ds refl ∙ simp other))
