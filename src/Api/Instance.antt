-- ===== src/Api/Instance.antt =====
-- The functions of WebRTC_API.cpp. The state is g_webrtcManager, `none` for nullptr.
use ant_media_server_confere.Base.{
  String, Bool, false, Option, none, some, ◌==◌, ◌<>◌, if◌then◌else◌,
}
use ant_media_server_confere.Base.Exec.{Exec, pure, modify, with_part, ◌>>◌}
use ant_media_server_confere.Platform.{JsonLib, Rtc, Call}
use ant_media_server_confere.Gst.State.{Target, x86, qcs610}
use ant_media_server_confere.Manager.State.{
  Manager, Method, create, set_room_id, set_stream_id, set_signaling_server_url,
}
use ant_media_server_confere.Manager.Chat.{send_chat_message}
use ant_media_server_confere.Manager.Lifecycle.{start_2way_communication, stop_2way_communication}

abbrev pub Api : Type 0 → Type 0
Api A = Exec (Option Manager) Call A

-- `if (!g_webrtcManager) g_webrtcManager = make_unique<WebRTCManager>();`
unfoldable pub ensure : Option Manager → Option Manager
ensure none = some create
ensure (some m) = some m

unfoldable pub webrtc_init : Api (Unit {0})
unfolding ensure modify
webrtc_init = modify ensure

-- `if (g_webrtcManager) g_webrtcManager->...`
unfoldable pub with_instance : Method → Api (Unit {0})
unfolding with_part
with_instance = with_part tt (λ o. o) (λ o m. some m)

unfoldable pub webrtc_set_signaling_server_url : String → Api (Unit {0})
unfolding webrtc_init with_instance
webrtc_set_signaling_server_url url = do webrtc_init; with_instance (set_signaling_server_url url)

unfoldable pub webrtc_set_room_id : String → Api (Unit {0})
unfolding with_instance
webrtc_set_room_id room_id = with_instance (set_room_id room_id)

unfoldable pub webrtc_set_stream_id : String → Api (Unit {0})
unfolding with_instance
webrtc_set_stream_id stream_id = with_instance (set_stream_id stream_id)

module _ (J : JsonLib) (R : Rtc) where
  unfoldable pub webrtc_start_2way_communication : Target → Bool → Api Bool
  unfolding webrtc_init with_part
  webrtc_start_2way_communication target is_player = do
    webrtc_init
    with_part false (λ o. o) (λ o m. some m) (start_2way_communication J R target is_player)

  unfoldable pub webrtc_stop_2way_communication : Api (Unit {0})
  unfolding with_instance
  webrtc_stop_2way_communication = with_instance (stop_2way_communication J R)

  unfoldable pub webrtc_send_chat_message : String → Api (Unit {0})
  unfolding with_instance
  webrtc_send_chat_message text = with_instance (send_chat_message J R text)

-- The name of the stream in `main`; `number` is the text of rand().
unfoldable pub stream_name : Target → Bool → String → String
stream_name x86 is_player number =
    "Ubuntu_" <> (if is_player then "player_" else "publisher_") <> number
stream_name qcs610 is_player number =
    "Device_" <> (if is_player then "player_" else "publisher_") <> number

-- What `main` sets before it starts the communication.
unfoldable pub set_up : String → String → Api (Unit {0})
unfolding webrtc_init webrtc_set_signaling_server_url webrtc_set_room_id webrtc_set_stream_id
set_up ams_url stream_id = do
  webrtc_init
  webrtc_set_signaling_server_url ams_url
  webrtc_set_room_id "room1"
  webrtc_set_stream_id stream_id

-- The value of AMS_WS_URL, or the text that stands for none.
unfoldable pub server_url : Option String → String
server_url none = "AMS_WEBSOCKET_URL"
server_url (some url) = url

module _ (J : JsonLib) (R : Rtc) where
  -- `main` up to the start of the console thread; false is an end with -1.
  unfoldable pub begin : Target → Option String → Bool → String → Api Bool
  unfolding set_up server_url stream_name webrtc_start_2way_communication pure
  begin target environment is_player number =
      if server_url environment == "AMS_WEBSOCKET_URL" then pure false else (do
        set_up (server_url environment) (stream_name target is_player number)
        webrtc_start_2way_communication J R target is_player)
