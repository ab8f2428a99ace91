-- ===== src/Manager/Plays.antt =====
-- When the manager asks the server for a stream: at most once until it is told to forget.
use mathlib.Core.Path.{refl}
use ant_media_server_confere.Base.{
  ℕ, String, ◌≡◌, inl, inr, Bool, true, false, not, Option, none, some, List, [], ◌∷◌, ◌∙◌, arith,
  ◌==◌, ◌&&◌, is_empty, if◌then◌else◌, Bool-cases,
}
use ant_media_server_confere.Base.Dict.{
  contains, lookup, insert, get_or, lookup-insert, lookup-erase,
}
use ant_media_server_confere.Base.Exec.{
  Exec, Outcome, done, thrown, state, calls, gets, modify, observe, when, pure, bind_done, ◌>>=◌,
  ◌>>◌,
}
use ant_media_server_confere.Base.Exec.Keeps.{Keeps, Keeps-with_part}
use ant_media_server_confere.Base.Exec.Ensures.{
  Ensures, Post, Ensures-of_Keeps, Ensures-modify, Ensures-bind,
}
use ant_media_server_confere.Platform.{JsonLib, Rtc, Call}
use ant_media_server_confere.Signaling.State.{Signaling}
use ant_media_server_confere.Signaling.Link
use ant_media_server_confere.Manager.State.{Manager, Method, with_signaling}
use ant_media_server_confere.Manager.Events.{
  on_publish_started, play_room, play_track, unless_alive, on_subtrack_added, on_subtrack_removed,
}

final_of_Post :
    (P : Manager → List Call → Type 0) (o : Outcome Manager Call (Unit {0}))
    → Post (λ _. P) P o
    → P (state o) (calls o)
final_of_Post P (done a s cs) h = h
final_of_Post P (thrown s cs) h = h

record Asked (stream_id : String) (m : Manager) (cs : List Call) : Type 0 where
  asked : get_or false stream_id m.send_play ≡ true

record RoomAsked (m : Manager) (cs : List Call) : Type 0 where
  asked : contains m.room_id m.send_play ≡ true

with_signaling-Asked :
    (stream_id : String) (x : Exec Signaling Call (Unit {0}))
    → Keeps (Asked stream_id) (with_signaling x)
unfolding with_signaling
with_signaling-Asked stream_id x =
    Keeps-with_part _ _ _ x (λ m cs ds t u h e. record { asked = h.asked })

with_signaling-RoomAsked : (x : Exec Signaling Call (Unit {0})) → Keeps RoomAsked (with_signaling x)
unfolding with_signaling
with_signaling-RoomAsked x = Keeps-with_part _ _ _ x (λ m cs ds t u h e. record { asked = h.asked })

module _ (J : JsonLib) (R : Rtc) where
  play_room-RoomAsked :
      (m : Manager) (cs : List Call)
      → contains (state (play_room J R m cs)).room_id (state (play_room J R m cs)).send_play ≡ true
  unfolding play_room
  play_room-RoomAsked m cs =
      (final_of_Post RoomAsked (play_room J R m cs) (ask.apply m cs tt)).asked
    where
      ask : Ensures (λ _ _. Unit {0}) (play_room J R) (λ _. RoomAsked) RoomAsked
      ask =
          Ensures-bind
            (Ensures-modify _ (λ n ds _. record {
              asked = ground (arith, lookup-insert n.room_id n.room_id true n.send_play);
            }))
            (λ _. Ensures-of_Keeps (with_signaling-RoomAsked _))

  abbrev pub ask_track : String → Method
  ask_track track_id =
      modify (λ m. record m { send_play = insert track_id true m.send_play })
      >> with_signaling (Link.send_play_stream J R track_id)

  play_track_new :
      (track_id : String) (m : Manager) (cs : List Call)
      → get_or false track_id m.send_play ≡ false
      → play_track J R track_id m cs ≡ ask_track track_id m cs
  unfolding play_track gets ◌>>=◌
  play_track_new track_id m cs e = simp e

  play_track_asked :
      (track_id : String) (m : Manager) (cs : List Call)
      → get_or false track_id m.send_play ≡ true
      → play_track J R track_id m cs ≡ done tt m cs
  unfolding play_track gets ◌>>=◌
  play_track_asked track_id m cs e = simp e

  play_track-Asked :
      (track_id : String) (m : Manager) (cs : List Call)
      → get_or false track_id m.send_play ≡ false
      → get_or false track_id (state (play_track J R track_id m cs)).send_play ≡ true
  play_track-Asked track_id m cs e =
      rw (play_track_new track_id m cs e)
        (final_of_Post (Asked track_id) (ask_track track_id m cs) (ask.apply m cs tt)).asked
    where
      ask : Ensures (λ _ _. Unit {0}) (ask_track track_id) (λ _. Asked track_id) (Asked track_id)
      ask =
          Ensures-bind
            (Ensures-modify _ (λ n ds _. record {
              asked = ground (arith, lookup-insert track_id track_id true n.send_play);
            }))
            (λ _. Ensures-of_Keeps (with_signaling-Asked track_id _))

  publish_started_asked :
      (m : Manager) (cs : List Call)
      → contains m.room_id m.send_play ≡ true
      → on_publish_started J R m cs ≡ done tt m cs
  unfolding on_publish_started gets ◌>>=◌
  publish_started_asked m cs e = simp e

  publish_started_new :
      (m : Manager) (cs : List Call)
      → contains m.room_id m.send_play ≡ false
      → on_publish_started J R m cs ≡ play_room J R m cs
  unfolding on_publish_started gets ◌>>=◌
  publish_started_new m cs e = simp e

  -- However the first notice ends, a second one changes nothing and calls nothing: the room is
  -- asked for once.
  pub on_publish_started_twice :
      (m : Manager) (cs : List Call)
      → let first = on_publish_started J R m cs in
        on_publish_started J R (state first) (calls first) ≡ done tt (state first) (calls first)
  on_publish_started_twice m cs = elim (Bool-cases (contains m.room_id m.send_play)) [
    | inl e ↦ rw (publish_started_asked m cs e) (publish_started_asked m cs e)
    | inr e ↦ rw (publish_started_new m cs e) (publish_started_asked _ _ (play_room-RoomAsked m cs))
  ]

  -- The tests of onSubtrackAddedNotification, all in one: a foreign track that has no live peer
  -- connection and has not been asked for.
  abbrev not_alive : List Call → Option ℕ → Bool
  not_alive cs none = true
  not_alive cs (some pc) = R.pc_closed cs pc

  abbrev pub wants : String → Manager → List Call → Bool
  wants track_id m cs =
      not (is_empty track_id)
      && not (track_id == m.publish_stream_id)
      && not_alive cs (lookup track_id m.pcs)
      && not (get_or false track_id m.send_play)

  unless_alive_lem :
      (track_id : String) (peer : Option ℕ) (m : Manager) (cs : List Call)
      → unless_alive J R track_id peer m cs
        ≡ (if not_alive cs peer then play_track J R track_id m cs else done tt m cs)
  unfolding unless_alive ◌>>=◌ observe when
  unless_alive_lem track_id none m cs = refl
  unless_alive_lem track_id (some pc) m cs = elim (Bool-cases (R.pc_closed cs pc)) [
    | inl e ↦ simp e
    | inr e ↦ simp e
  ]

  play_track_lem :
      (track_id : String) (m : Manager) (cs : List Call)
      → play_track J R track_id m cs ≡ (
          if not (get_or false track_id m.send_play) then ask_track track_id m cs else done tt m cs)
  play_track_lem track_id m cs = elim (Bool-cases (get_or false track_id m.send_play)) [
    | inl e ↦ simp e (play_track_asked track_id m cs e)
    | inr e ↦ simp e (play_track_new track_id m cs e)
  ]

  -- A notice of a new track asks for it exactly if it is a named foreign track with no live peer
  -- connection that has not been asked for; otherwise it does nothing.
  pub on_subtrack_added-wants :
      (track_id : String) (m : Manager) (cs : List Call)
      → on_subtrack_added J R track_id m cs
        ≡ (if wants track_id m cs then ask_track track_id m cs else done tt m cs)
  unfolding on_subtrack_added ◌>>=◌ gets when
  on_subtrack_added-wants track_id m cs =
      grind (
        arith,
        unless_alive_lem track_id (lookup track_id m.pcs) m cs,
        play_track_lem track_id m cs,
      )

  ask_track-Asked :
      (track_id : String) (m : Manager) (cs : List Call)
      → get_or false track_id (state (ask_track track_id m cs)).send_play ≡ true
  ask_track-Asked track_id m cs =
      (final_of_Post (Asked track_id) (ask_track track_id m cs) (ask.apply m cs tt)).asked
    where
      ask : Ensures (λ _ _. Unit {0}) (ask_track track_id) (λ _. Asked track_id) (Asked track_id)
      ask =
          Ensures-bind
            (Ensures-modify _ (λ n ds _. record {
              asked = ground (arith, lookup-insert track_id track_id true n.send_play);
            }))
            (λ _. Ensures-of_Keeps (with_signaling-Asked track_id _))

  asked_again :
      (track_id : String) (m : Manager) (cs : List Call)
      → get_or false track_id m.send_play ≡ true
      → on_subtrack_added J R track_id m cs ≡ done tt m cs
  asked_again track_id m cs e = grind (arith, on_subtrack_added-wants track_id m cs)

  -- After the removal of a named foreign track that has no peer connection, the next notice of it
  -- asks for it, whether it was asked for before or not.
  pub on_subtrack_removed-wants :
      (track_id : String) (m : Manager) (cs : List Call)
      → is_empty track_id ≡ false
      → (track_id == m.publish_stream_id) ≡ false
      → lookup track_id m.pcs ≡ none
      → let removed = on_subtrack_removed J R track_id m cs in
        on_subtrack_added J R track_id (state removed) (calls removed)
        ≡ ask_track track_id (state removed) (calls removed)
  unfolding on_subtrack_removed when modify
  on_subtrack_removed-wants track_id m cs named foreign absent =
      rw on_subtrack_added-wants (ground (arith, lookup-erase track_id track_id m.send_play))

module _ (J : JsonLib) where
  -- Notices of one track, each with what the libraries answer then.
  unfoldable pub notices : List Rtc → String → Method
  unfolding pure
  notices [] track_id = pure tt
  notices (R ∷ rest) track_id = do on_subtrack_added J R track_id; notices rest track_id

  notices_asked :
      (rest : List Rtc) (track_id : String) (m : Manager) (cs : List Call)
      → get_or false track_id m.send_play ≡ true
      → notices rest track_id m cs ≡ done tt m cs
  unfolding notices pure
  notices_asked [] track_id m cs e = refl
  notices_asked (R ∷ rest) track_id m cs e =
      bind_done (on_subtrack_added J R track_id) (λ _. notices rest track_id) m cs
        (asked_again J R track_id m cs e)
      ∙ notices_asked rest track_id m cs e

  -- A notice that asks for its track is the last that does so: however it ends, also with an
  -- exception, any number of further notices of the track change nothing and call nothing, whatever
  -- the libraries answer then, also if they report the peer connection of the track as closed.
  pub on_subtrack_added-notices :
      (R : Rtc) (rest : List Rtc) (track_id : String) (m : Manager) (cs : List Call)
      → wants J R track_id m cs ≡ true
      → let first = on_subtrack_added J R track_id m cs in
        (get_or false track_id (state first).send_play ≡ true)
        × (notices rest track_id (state first) (calls first) ≡ done tt (state first) (calls first))
  on_subtrack_added-notices R rest track_id m cs e =
      rw (on_subtrack_added-wants J R track_id m cs, e)
        (
          ask_track-Asked J R track_id m cs,
          notices_asked rest track_id _ _ (ask_track-Asked J R track_id m cs),
        )
