-- ===== src/Protocol/Chat.antt =====
-- Chat messages and talking notices, from the sender's call to the receiver's flag.
use mathlib.Core.Path.{refl}
use ant_media_server_confere.Base.{
  ℕ, String, string_dec, ◌≡◌, ◌∙◌, true, false, some, List, [], ◌∷◌, arith, ◌==◌, if◌then◌else◌,
}
use ant_media_server_confere.Base.Dict.{lookup, insert}
use ant_media_server_confere.Base.Exec.{done, gets, pure, try_pure, modify, call, observe, ◌>>=◌}
use ant_media_server_confere.Platform.{JsonLib, Rtc, Call, dc_send}
use ant_media_server_confere.Manager.State.{Manager}
use ant_media_server_confere.Manager.Chat.{
  is_connected, chat_message, set_talking, handle_data_channel_text, send_chat_message,
}
use ant_media_server_confere.Protocol.Json.{IsLawful}

module _ (J : JsonLib) where
  abbrev chat_members : String → String → String → List (String × J.Json)
  chat_members sender text date =
      ("eventType", J.string "MESSAGE_RECEIVED")
      ∷ ("message", J.string text)
      ∷ ("senderId", J.string sender)
      ∷ ("name", J.string sender)
      ∷ ("date", J.string date)
      ∷ []

module _ (J : JsonLib) (law : IsLawful J) where
  -- What a chat message does to its receiver: exactly what its text says of the sender's flag.
  chat_received :
      (label sender text date payload : String) (m : Manager) (cs : List Call)
      → J.dump (chat_message J sender text date) ≡ some payload
      → handle_data_channel_text J label payload m cs ≡ set_talking J sender text m cs
  unfolding chat_message handle_data_channel_text try_pure ◌>>=◌ lookup string_dec
  chat_received label sender text date payload m cs sent =
      let fs : List (String × J.Json) = chat_members J sender text date in
      rw (law.parse-dump fs payload sent) (
        simp (
          law.contains-object,
          law.get_string-object "eventType" "MESSAGE_RECEIVED" fs refl,
          law.get_string-object "senderId" sender fs refl,
          law.get_string-object "message" text fs refl,
        ))

  sender_side :
      (R : Rtc) (text payload : String) (dc : ℕ) (m : Manager) (cs : List Call)
      → is_connected m ≡ true
      → lookup m.publish_stream_id m.local_data_channels ≡ some dc
      → R.dc_open cs dc ≡ true
      → R.throws (dc_send dc payload ∷ cs) ≡ false
      → J.dump (chat_message J m.publish_stream_id text R.local_time) ≡ some payload
      → send_chat_message J R text m cs ≡ done tt m (dc_send dc payload ∷ cs)
  unfolding send_chat_message try_pure gets observe call ◌>>=◌
  sender_side R text payload dc m cs connected channel is_open quiet sent =
      simp connected (simp sent (simp channel (simp is_open (simp quiet))))

  set_talking_lem :
      (sender text : String) (n : Manager) (ds : List Call)
      → set_talking J sender text n ds ≡ (
          if text == "iamtalking"
          then done tt (record n { is_stream_talking = insert sender true n.is_stream_talking }) ds
          else if text == "iammute"
          then done tt (record n { is_stream_talking = insert sender false n.is_stream_talking }) ds
          else done tt n ds)
  unfolding set_talking pure modify
  set_talking_lem sender text n ds = ground arith

  -- With a JSON library that keeps its laws, a message that can be written, by a sender that is
  -- connected, with its channel open and not throwing, is one text on that channel, and whoever
  -- reads this text knows from it what the sender said: "iamtalking" sets the sender's
  -- flag, "iammute" clears it, and any other text changes nothing.
  pub send_chat_message-handle_data_channel_text :
      (R : Rtc) (text label payload : String) (dc : ℕ) (m n : Manager) (cs ds : List Call)
      → is_connected m ≡ true
      → lookup m.publish_stream_id m.local_data_channels ≡ some dc
      → R.dc_open cs dc ≡ true
      → R.throws (dc_send dc payload ∷ cs) ≡ false
      → J.dump (chat_message J m.publish_stream_id text R.local_time) ≡ some payload
      → (send_chat_message J R text m cs ≡ done tt m (dc_send dc payload ∷ cs))
        × (handle_data_channel_text J label payload n ds ≡ (
            if text == "iamtalking"
            then done tt
                (record n {
                  is_stream_talking = insert m.publish_stream_id true n.is_stream_talking;
                })
                ds
            else if text == "iammute"
            then done tt
                (record n {
                  is_stream_talking = insert m.publish_stream_id false n.is_stream_talking;
                })
                ds
            else done tt n ds))
  send_chat_message-handle_data_channel_text R text label payload dc m n cs ds connected channel
        is_open quiet sent =
      (
        sender_side R text payload dc m cs connected channel is_open quiet sent,
        chat_received label m.publish_stream_id text R.local_time payload n ds sent
            ∙ set_talking_lem m.publish_stream_id text n ds,
      )
