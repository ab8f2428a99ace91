-- ===== src/Manager/Chat.antt =====
-- SendChatMessage, SendBinaryMessage and handleDataChannelText.
use ant_media_server_confere.Base.{
  ℕ, String, Bool, true, false, Option, none, some, List, [], ◌∷◌, ◌==◌, ◌&&◌, if◌then◌else◌,
}
use ant_media_server_confere.Base.Dict.{lookup, insert}
use ant_media_server_confere.Base.Exec.{pure, gets, try_pure, modify, call, observe, when, ◌>>=◌}
use ant_media_server_confere.Platform.{JsonLib, Rtc, dc_send, dc_send_binary}
use ant_media_server_confere.Signaling.State.{Signaling}
use ant_media_server_confere.Manager.State.{Manager, Method}

abbrev link_is_open : Option Signaling → Bool
link_is_open none = false
link_is_open (some s) = s.ws_open

-- The negation of the first test of SendChatMessage.
abbrev pub is_connected : Manager → Bool
is_connected m = m.is_communicating && link_is_open m.signaling

module _ (J : JsonLib) where
  unfoldable pub chat_message : String → String → String → J.Json
  chat_message sender text date = J.object (
      ("eventType", J.string "MESSAGE_RECEIVED")
      ∷ ("message", J.string text)
      ∷ ("senderId", J.string sender)
      ∷ ("name", J.string sender)
      ∷ ("date", J.string date)
      ∷ [])

  -- The flag of the sender after a message that was read in full.
  unfoldable pub set_talking : String → String → Method
  unfolding pure
  set_talking sender text =
      if text == "iamtalking"
      then modify (λ m. record m { is_stream_talking = insert sender true m.is_stream_talking })
      else if text == "iammute"
      then modify (λ m. record m { is_stream_talking = insert sender false m.is_stream_talking })
      else pure tt

  unfoldable pub handle_event : J.Json → Method
  unfolding set_talking when
  handle_event j = do
    event_type ← try_pure (J.get_string j "eventType")
    if event_type == "AUDIO_TRACK_ASSIGNMENT"
        then pure tt
        else when (J.contains j "senderId" && J.contains j "message") (do
          sender ← try_pure (J.get_string j "senderId")
          text ← try_pure (J.get_string j "message")
          set_talking sender text)

  unfoldable pub handle_parsed : Option J.Json → Method
  unfolding handle_event pure when
  handle_parsed none = pure tt
  handle_parsed (some j) = when (J.contains j "eventType") (handle_event j)

  -- The label is only logged.
  unfoldable pub handle_data_channel_text : String → String → Method
  unfolding handle_parsed
  handle_data_channel_text label text = handle_parsed (J.parse text)

module _ (R : Rtc) where
  unfoldable pub send_text : Option ℕ → String → Method
  unfolding pure when
  send_text none payload = pure tt
  send_text (some dc) payload = do
    is_open ← observe (λ cs. R.dc_open cs dc)
    when is_open (call R.throws (dc_send dc payload))

  unfoldable pub send_bytes : Option ℕ → List ℕ → Method
  unfolding pure when
  send_bytes none bytes = pure tt
  send_bytes (some dc) bytes = do
    is_open ← observe (λ cs. R.dc_open cs dc)
    when is_open (call R.throws (dc_send_binary dc bytes))

  unfoldable pub send_binary_message : List ℕ → String → Method
  unfolding send_bytes
  send_binary_message bytes label = do
    dc ← gets (λ m. lookup label m.local_data_channels)
    send_bytes dc bytes

module _ (J : JsonLib) (R : Rtc) where
  unfoldable pub send_chat_message : String → Method
  unfolding chat_message send_text when
  send_chat_message text = do
    connected ← gets is_connected
    when connected (do
      m ← gets (λ m. m)
      payload ← try_pure (J.dump (chat_message J m.publish_stream_id text R.local_time))
      send_text R (lookup m.publish_stream_id m.local_data_channels) payload)
