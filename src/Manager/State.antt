-- ===== src/Manager/State.antt =====
-- The members of WebRTCManager, its constructor and the setters.
use ant_media_server_confere.Base.{ℕ, String, Bool, true, false, Option, none, some, List, []}
use ant_media_server_confere.Base.Dict.{Dict}
use ant_media_server_confere.Base.Exec.{Exec, modify, with_part}
use ant_media_server_confere.Platform.{Call, Candidate}
use ant_media_server_confere.Signaling.State.{Signaling, Handlers}
use ant_media_server_confere.Gst.State.{Gst}

-- An object of libdatachannel is its number; see Platform.
pub record Manager : Type 0 where
  pub signaling_server_url : String
  pub room_id : String
  pub publish_stream_id : String
  pub is_only_player : Bool
  pub is_communicating : Bool
  pub gst : Option Gst
  pub signaling : Option Signaling
  pub pcs : Dict ℕ
  pub is_publisher : Dict Bool
  pub send_play : Dict Bool
  pub played : Dict Bool
  pub remote_tracks : Dict (List ℕ)
  pub pending_candidates : Dict (List Candidate)
  pub mid_type_map : Dict String
  pub local_data_channels : Dict ℕ
  pub remote_data_channels : Dict ℕ
  pub is_stream_talking : Dict Bool

unfoldable pub create : Manager
create = record {
  signaling_server_url = "";
  room_id = "room1";
  publish_stream_id = "";
  is_only_player = false;
  is_communicating = false;
  gst = none;
  signaling = none;
  pcs = [];
  is_publisher = [];
  send_play = [];
  played = [];
  remote_tracks = [];
  pending_candidates = [];
  mid_type_map = [];
  local_data_channels = [];
  remote_data_channels = [];
  is_stream_talking = [];
}

abbrev pub Method : Type 0
Method = Exec Manager Call (Unit {0})

unfoldable pub set_room_id : String → Method
unfolding modify
set_room_id room_id = modify (λ m. record m { room_id = room_id })

unfoldable pub set_stream_id : String → Method
unfolding modify
set_stream_id stream_id = modify (λ m. record m { publish_stream_id = stream_id })

unfoldable pub set_signaling_server_url : String → Method
unfolding modify
set_signaling_server_url url = modify (λ m. record m { signaling_server_url = url })

-- A call on m_signalingContext and on m_gstManager, if they are there.
unfoldable pub with_signaling : Exec Signaling Call (Unit {0}) → Method
unfolding with_part
with_signaling = with_part tt (λ m. m.signaling) (λ m s. record m { signaling = some s })

unfoldable pub with_gst : Exec Gst Call (Unit {0}) → Method
unfolding with_part
with_gst = with_part tt (λ m. m.gst) (λ m g. record m { gst = some g })

-- The callbacks that initWebRTCStateMachine sets.
abbrev pub all_handlers : Handlers
all_handlers = record {
  on_connected = true;
  on_disconnected = true;
  on_start_offerer = true;
  on_remote_sdp = true;
  on_remote_candidate = true;
  on_joined_room_notification = true;
  on_publish_started_notification = true;
  on_play_started_notification = true;
  on_play_finished_notification = true;
  on_subtrack_added_notification = true;
  on_subtrack_removed_notification = true;
}
