-- ===== src/Platform.antt =====
-- What the program calls and does not implement: nlohmann::json, sdptransform, libdatachannel (the
-- namespace rtc) and GStreamer. The JSON values are an abstract type with the functions that the
-- program uses. The rest is a list of calls: a library object is known by a number, the count of
-- calls made before it was created, and what a library answers may depend on all calls so far.
pub mod Int
use Int.{ℤ}
use ant_media_server_confere.Base.{ℕ, String, Bool, Option, List}

-- nlohmann::json and sdptransform::parse. `none` stands for an exception.
pub record JsonLib : Type 1 where
  pub Json : Type 0
  pub null : Json
  pub boolean : Bool → Json
  pub integer : ℤ → Json
  pub string : String → Json
  -- An object from its members, and `j[k] = v`.
  pub object : List (String × Json) → Json
  pub set_member : Json → String → Json → Json
  pub parse : String → Option Json
  pub dump : Json → Option String
  pub contains : Json → String → Bool
  -- `j.value(k, default)` at a text and at an int.
  pub value : Json → String → String → Option String
  pub value_int : Json → String → ℤ → Option ℤ
  -- `j[k]` of a member that is there, and `j[k].get<std::string>()`.
  pub at : Json → String → Json
  pub get_string : Json → String → Option String
  -- The values that `for (auto &x : j)` visits.
  pub elements : Json → List Json
  pub sdp_parse : String → Option Json

-- rtc::Candidate.
pub record Candidate : Type 0 where
  pub candidate : String
  pub mid : String

-- rtc::Description::Type, as far as the program uses it.
pub data SdpType : Type 0 where
  offer answer : SdpType

pub data Media : Type 0 where
  video audio : Media

pub data Direction : Type 0 where
  send_only recv_only : Direction

-- rtc::Description::Video and Audio with the codec and the SSRC that are added to them.
pub record MediaDescription : Type 0 where
  pub media : Media
  pub name : String
  pub direction : Direction
  pub payload_type : ℕ
  pub ssrc : Option ℕ

pub data Call : Type 0 where
  -- rtc::WebSocket. The callbacks are set to the one function that the program has for each, or to
  -- nullptr.
  ws_set_callbacks ws_clear_callbacks ws_close : Call
  ws_open ws_send : String → Call
  -- rtc::PeerConnection, by its number.
  pc_create pc_close : ℕ → Call
  pc_on_data_channel pc_on_ice_state_change : ℕ → Call
  pc_on_track pc_on_local_candidate pc_on_local_description : ℕ → String → Call
  pc_clear_callbacks : ℕ → Call
  pc_add_track : ℕ → MediaDescription → Call
  pc_create_data_channel : ℕ → String → Call
  pc_set_remote_description : ℕ → SdpType → String → Call
  pc_set_local_description : ℕ → SdpType → Call
  pc_add_remote_candidate : ℕ → Candidate → Call
  -- rtc::DataChannel and rtc::Track.
  dc_set_callbacks dc_close : ℕ → Call
  dc_send : ℕ → String → Call
  dc_send_binary : ℕ → List ℕ → Call
  track_set_media_handler : ℕ → Call
  track_on_message : ℕ → String → Call
  track_on_open : ℕ → Call
  track_send : ℕ → List ℕ → Call
  -- GStreamer and the thread that runs its main loop.
  gst_parse_launch : String → Call
  gst_connect : ℕ → String → Call
  gst_add_probe : ℕ → Call
  gst_get_by_name : ℕ → String → Call
  gst_set_playing gst_set_null gst_object_unref : ℕ → Call
  gst_push_buffer : ℕ → List ℕ → Call
  gst_sample_unref gst_unmap : ℕ → Call
  main_loop_new main_loop_quit main_loop_unref main_thread_start main_thread_join : Call

-- What gst_parse_launch gives: nullptr, a pipeline together with an error, or a pipeline.
pub data Launch : Type 0 where
  failed partial launched : Launch

-- What the libraries answer.
pub record Rtc : Type 0 where
  -- Whether the newest of these calls throws.
  pub throws : List Call → Bool
  -- `pc->state() == State::Closed` and `dc->isOpen()` after these calls.
  pub pc_closed : List Call → ℕ → Bool
  pub dc_open : List Call → ℕ → Bool
  pub track_open : List Call → ℕ → Bool
  pub dc_label : ℕ → String
  -- `track->mid()` and `track->description().type()`.
  pub track_mid : ℕ → String
  pub track_type : ℕ → String
  -- The local time as strftime writes it with "%a %b %d %Y %H:%M:%S GMT%z".
  pub local_time : String
  -- The result of the newest call, which is gst_parse_launch.
  pub launch : List Call → Launch
  -- Whether gst_bin_get_by_name, the newest call, finds the element.
  pub has_element : List Call → Bool
  -- Whether gst_buffer_new_allocate succeeds.
  pub allocates : List Call → Bool
