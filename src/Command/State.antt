-- ===== src/Command/State.antt =====
-- The members of AMS_SFU_ConferenceSignalingCommand, its constructor and `shutdown`.
use ant_media_server_confere.Base.{ℕ, String, Bool, false}

-- `ws` says whether ws_ is not null, and the callbacks whether they hold a function.
pub record Command : Type 0 where
  pub ws : Bool
  pub self_stream_id : String
  pub room_id : String
  pub cand_label : ℕ
  pub on_start_offerer : Bool
  pub on_remote_sdp : Bool
  pub on_remote_candidate : Bool
  pub on_notification : Bool

unfoldable pub create : Bool → String → String → Command
create ws self_stream_id room_id = record {
  ws = ws;
  self_stream_id = self_stream_id;
  room_id = room_id;
  cand_label = 0;
  on_start_offerer = false;
  on_remote_sdp = false;
  on_remote_candidate = false;
  on_notification = false;
}

unfoldable pub shutdown : Command → Command
shutdown c = record c {
  on_start_offerer = false;
  on_remote_sdp = false;
  on_remote_candidate = false;
  on_notification = false;
}
