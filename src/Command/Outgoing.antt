-- ===== src/Command/Outgoing.antt =====
-- The messages of AMS_SFU_ConferenceSignalingCommand and the methods that send them.
use ant_media_server_confere.Base.{ℕ, suc, String, Bool, [], ◌∷◌, is_empty, if◌then◌else◌}
use ant_media_server_confere.Base.Exec.{Exec, gets, try_pure, modify, call, when, ◌>>=◌, ◌>>◌}
use ant_media_server_confere.Platform.{JsonLib, Rtc, Call, ws_send, Candidate}
use ant_media_server_confere.Platform.Int.{pos}
use ant_media_server_confere.Command.State.{Command}

module _ (J : JsonLib) where
  unfoldable pub publish : Command → Bool → Bool → J.Json
  publish c video audio = J.object (
      ("command", J.string "publish")
      ∷ ("streamId", J.string c.self_stream_id)
      ∷ ("streamName", J.string c.self_stream_id)
      ∷ ("mainTrack", J.string c.room_id)
      ∷ ("metaData", J.null)
      ∷ ("subscriberCode", J.string "client1")
      ∷ ("subscriberId", J.string "client1")
      ∷ ("video", J.boolean video)
      ∷ ("audio", J.boolean audio)
      ∷ ("role", J.string "")
      ∷ [])

  unfoldable pub join : Command → J.Json
  join c = J.object (
      ("command", J.string "joinRoom")
      ∷ ("streamId", J.string c.self_stream_id)
      ∷ ("room", J.string c.room_id)
      ∷ ("mode", J.string "amcu")
      ∷ [])

  unfoldable pub play : Command → String → J.Json
  play c target_stream_id = J.object (
      ("command", J.string "play")
      ∷ ("room", J.string c.room_id)
      ∷ ("streamId", J.string target_stream_id)
      ∷ [])

  unfoldable pub get_room_info : Command → J.Json
  get_room_info c = J.object (
      ("command", J.string "getRoomInfo")
      ∷ ("room", J.string c.room_id)
      ∷ ("streamId", J.string c.room_id)
      ∷ [])

  unfoldable pub take_configuration : String → String → String → J.Json
  take_configuration stream_id type sdp = J.object (
      ("command", J.string "takeConfiguration")
      ∷ ("streamId", J.string stream_id)
      ∷ ("type", J.string type)
      ∷ ("sdp", J.string sdp)
      ∷ [])

  unfoldable pub take_candidate : String → Candidate → ℕ → J.Json
  take_candidate stream_id cand label =
      let message = J.object (
        ("command", J.string "takeCandidate")
        ∷ ("streamId", J.string stream_id)
        ∷ ("candidate", J.string cand.candidate)
        ∷ ("label", J.integer (pos label))
        ∷ []) in
      if is_empty cand.mid then message else J.set_member message "id" (J.string cand.mid)

  unfoldable pub stop : String → J.Json
  stop stream_id = J.object (("command", J.string "stop") ∷ ("streamId", J.string stream_id) ∷ [])

  unfoldable pub leave_room : Command → J.Json
  leave_room c =
      J.object (("command", J.string "leaveFromRoom") ∷ ("room", J.string c.room_id) ∷ [])

module _ (J : JsonLib) (R : Rtc) where
  unfoldable pub send_json : J.Json → Exec Command Call (Unit {0})
  unfolding when
  send_json j = do
    connected ← gets (λ c. c.ws)
    when connected (do message ← try_pure (J.dump j); call R.throws (ws_send message))

  unfoldable pub send_publish : Bool → Bool → Exec Command Call (Unit {0})
  send_publish video audio = do c ← gets (λ c. c); send_json (publish J c video audio)

  unfoldable pub send_join_room : Exec Command Call (Unit {0})
  send_join_room = do c ← gets (λ c. c); send_json (join J c)

  unfoldable pub send_play_room : Exec Command Call (Unit {0})
  send_play_room = do c ← gets (λ c. c); send_json (play J c c.room_id)

  unfoldable pub send_play_stream : String → Exec Command Call (Unit {0})
  send_play_stream target = do c ← gets (λ c. c); send_json (play J c target)

  unfoldable pub send_get_room_info : Exec Command Call (Unit {0})
  send_get_room_info = do c ← gets (λ c. c); send_json (get_room_info J c)

  unfoldable pub send_take_configuration : String → String → String → Exec Command Call (Unit {0})
  send_take_configuration stream_id type sdp = send_json (take_configuration J stream_id type sdp)

  -- `candLabel_++` is evaluated while the message is built. The label is an int: this is so for the first
  -- 2 ^ 31 - 1 candidates of an object, beyond which the increment is undefined.
  unfoldable pub send_take_candidate : String → Candidate → Exec Command Call (Unit {0})
  send_take_candidate stream_id cand = do
    label ← gets (λ c. c.cand_label)
    modify (λ c. record c { cand_label = suc c.cand_label })
    send_json (take_candidate J stream_id cand label)

  unfoldable pub send_stop_publish : Exec Command Call (Unit {0})
  send_stop_publish = do c ← gets (λ c. c); send_json (stop J c.self_stream_id)

  unfoldable pub send_stop_play_room : Exec Command Call (Unit {0})
  send_stop_play_room = do c ← gets (λ c. c); send_json (stop J c.room_id)

  unfoldable pub send_leave_room : Exec Command Call (Unit {0})
  send_leave_room = do c ← gets (λ c. c); send_json (leave_room J c)
