-- ===== src/Tests/Protocol.antt =====
-- Messages with a JSON library that knows one object.
use mathlib.Core.Path.{refl}
use ant_media_server_confere.Base.{
  ◌↔◌, string_dec, ◌≡◌, ◌≢◌, true, false, none, some, List, [], ◌∷◌, ◌==◌, arith, if◌then◌else◌,
}
use ant_media_server_confere.Base.Dict.{Dict, lookup, insert}
use ant_media_server_confere.Base.Exec.{done}
use ant_media_server_confere.Platform.{Call, Candidate, dc_send}
use ant_media_server_confere.Platform.Int.{pos}
use ant_media_server_confere.Command.State.{Command}
use ant_media_server_confere.Command.Outgoing.{take_configuration, take_candidate}
use ant_media_server_confere.Command.Incoming.{remote_sdp, remote_candidate}
use ant_media_server_confere.Signaling.State.{AmsEvent, unknown, Signaling, no_handlers}
use ant_media_server_confere.Signaling.Dispatch.{string_to_event, read_message}
use ant_media_server_confere.Signaling.Link.{disconnect}
use ant_media_server_confere.Manager.State.{Manager}
use ant_media_server_confere.Manager.Chat.{
  chat_message, handle_data_channel_text, send_chat_message,
}
use ant_media_server_confere.Protocol.Messages.{
  receive, receive-take_configuration, receive-take_candidate,
}
use ant_media_server_confere.Protocol.Events.{
  event_name, string_to_event-event_name, disconnect_deaf,
}
use ant_media_server_confere.Protocol.Chat.{send_chat_message-handle_data_channel_text}
use ant_media_server_confere.Tests.Platform.{
  Leaf, text, number, Json, members, toy, toy-IsLawful, toy-dump, calm,
}
use ant_media_server_confere.Tests.Manager.{running}

abbrev pub client : Command
client = record {
  ws = true;
  self_stream_id = "me";
  room_id = "room1";
  cand_label = 0;
  on_start_offerer = true;
  on_remote_sdp = true;
  on_remote_candidate = true;
  on_notification = true;
}

abbrev description : Dict Leaf
description =
    ("command", text "takeConfiguration")
    ∷ ("streamId", text "track")
    ∷ ("type", text "answer")
    ∷ ("sdp", text "v=0")
    ∷ []

description-dump :
    (toy description).dump (take_configuration (toy description) "track" "answer" "v=0")
    ≡ some "sample"
unfolding take_configuration
description-dump = toy-dump description

receive-take_configuration_example :
    receive (toy description) client "sample" ≡ some (some (remote_sdp "track" "answer" "v=0"))
receive-take_configuration_example =
    receive-take_configuration (toy description) (toy-IsLawful description) client "track" "answer"
      "v=0" "sample" refl description-dump

abbrev pub early : Candidate
early = record { candidate = "candidate:1"; mid = "0" }

abbrev candidate_fields : Dict Leaf
candidate_fields =
    ("command", text "takeCandidate")
    ∷ ("streamId", text "track")
    ∷ ("candidate", text "candidate:1")
    ∷ ("label", number (pos 4))
    ∷ ("id", text "0")
    ∷ []

candidate_fields-dump :
    (toy candidate_fields).dump (take_candidate (toy candidate_fields) "track" early 4)
    ≡ some "sample"
unfolding take_candidate insert string_dec
candidate_fields-dump = toy-dump candidate_fields

receive-take_candidate_example :
    receive (toy candidate_fields) client "sample"
    ≡ some (some (remote_candidate "track" "candidate:1" "0" (pos 4)))
receive-take_candidate_example =
    receive-take_candidate (toy candidate_fields) (toy-IsLawful candidate_fields) client "track"
      early 4 "sample" refl candidate_fields-dump

abbrev start_message : Json
start_message = members (("command", text "start") ∷ ("streamId", text "me") ∷ [])

play_started-known : AmsEvent.play_started ≢ unknown
play_started-known e = ground arith

abbrev link : Signaling
link = record {
  room_id = "room1";
  ws_open = true;
  ws_callbacks = true;
  client = some client;
  handlers = no_handlers;
}

disconnect_deaf_example :
    (ds : List Call) × (t : Signaling) × (disconnect calm link [] ≡ done tt t ds)
    × (t.ws_open ≡ false)
    × (read_message (toy []) t "sample" ≡ some none)
disconnect_deaf_example = disconnect_deaf (toy []) calm link [] "sample"

joined-IsKnown : AmsEvent.joined_the_room ≢ unknown
joined-IsKnown e = cc

string_to_event-event_name_example :
    (string_to_event "joinedTheRoom" ≡ AmsEvent.joined_the_room)
    ↔ ("joinedTheRoom" ≡ event_name AmsEvent.joined_the_room)
string_to_event-event_name_example =
    string_to_event-event_name "joinedTheRoom" AmsEvent.joined_the_room joined-IsKnown

abbrev chat_fields : Dict Leaf
chat_fields =
    ("eventType", text "MESSAGE_RECEIVED")
    ∷ ("message", text "iamtalking")
    ∷ ("senderId", text "me")
    ∷ ("name", text "me")
    ∷ ("date", text "Thu Jan 01 1970 00:00:00 GMT+0000")
    ∷ []

chat_fields-dump :
    (toy chat_fields).dump (chat_message (toy chat_fields) "me" "iamtalking" calm.local_time)
    ≡ some "sample"
unfolding chat_message
chat_fields-dump = toy-dump chat_fields

own_channel : lookup "me" running.local_data_channels ≡ some 5
unfolding lookup string_dec
own_channel = refl

-- The sender, with its link open.
abbrev sender : Manager
sender = record running { signaling = some link }

send_chat_message-handle_data_channel_text_example :
    (send_chat_message (toy chat_fields) calm "iamtalking" sender []
      ≡ done tt sender (dc_send 5 "sample" ∷ []))
    × (handle_data_channel_text (toy chat_fields) "dc" "sample" running [] ≡ (
        if "iamtalking" == "iamtalking"
        then done tt (record running { is_stream_talking = insert "me" true [] }) []
        else if "iamtalking" == "iammute"
        then done tt (record running { is_stream_talking = insert "me" false [] }) []
        else done tt running []))
send_chat_message-handle_data_channel_text_example =
    send_chat_message-handle_data_channel_text (toy chat_fields) (toy-IsLawful chat_fields) calm
      "iamtalking" "dc" "sample" 5 sender running [] [] refl own_channel refl refl chat_fields-dump
