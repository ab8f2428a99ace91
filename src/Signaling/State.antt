-- ===== src/Signaling/State.antt =====
-- The members of AMS_SFU_ConferenceSignaling, and the events that it passes on.
use ant_media_server_confere.Base.{String, Bool, false, Option, none}
use ant_media_server_confere.Command.State.{Command}

-- enum class AMSEvent.
pub data AmsEvent : Type 0 where
  unknown joined_the_room publish_started play_started play_finished : AmsEvent
  subtrack_added subtrack_removed : AmsEvent

-- Which of the callbacks for WebRTCManager hold a function.
pub record Handlers : Type 0 where
  pub on_connected : Bool
  pub on_disconnected : Bool
  pub on_start_offerer : Bool
  pub on_remote_sdp : Bool
  pub on_remote_candidate : Bool
  pub on_joined_room_notification : Bool
  pub on_publish_started_notification : Bool
  pub on_play_started_notification : Bool
  pub on_play_finished_notification : Bool
  pub on_subtrack_added_notification : Bool
  pub on_subtrack_removed_notification : Bool

abbrev pub no_handlers : Handlers
no_handlers = record {
  on_connected = false;
  on_disconnected = false;
  on_start_offerer = false;
  on_remote_sdp = false;
  on_remote_candidate = false;
  on_joined_room_notification = false;
  on_publish_started_notification = false;
  on_play_started_notification = false;
  on_play_finished_notification = false;
  on_subtrack_added_notification = false;
  on_subtrack_removed_notification = false;
}

-- `ws_callbacks` says whether m_ws has its three callbacks.
pub record Signaling : Type 0 where
  pub room_id : String
  pub ws_open : Bool
  pub ws_callbacks : Bool
  pub client : Option Command
  pub handlers : Handlers

unfoldable pub create : String → Signaling
create room_id = record {
  room_id = room_id;
  ws_open = false;
  ws_callbacks = false;
  client = none;
  handlers = no_handlers;
}

-- A call of one of the callbacks for WebRTCManager.
pub data Event : Type 0 where
  connected disconnected publish_started : Event
  start_offerer play_started play_finished subtrack_added subtrack_removed : String → Event
  remote_sdp remote_candidate : String → String → String → Event
  joined_room : Bool → Event
