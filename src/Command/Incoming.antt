-- ===== src/Command/Incoming.antt =====
-- `AMS_SFU_ConferenceSignalingCommand::handleMessage`. The callback that it ends in is returned as
-- a value; `none` is an exception.
use ant_media_server_confere.Base.{String, Bool, Option, none, some, ◌==◌, ◌&&◌, if◌then◌else◌}
use ant_media_server_confere.Platform.{JsonLib}
use ant_media_server_confere.Platform.Int.{ℤ, pos}
use ant_media_server_confere.Command.State.{Command}

infixl 5 ◌>>=◌
abbrev pub ◌>>=◌ {ℓ κ} : {A : Type ℓ} {B : Type κ} → Option A → (A → Option B) → Option B
none >>= f = none
some a >>= f = f a

-- A call of onStartOfferer, onRemoteSDP, onRemoteCandidate or onNotification.
pub data Upcall (Json : Type 0) : Type 0 where
  start_offerer : String → Upcall Json
  remote_sdp : String → String → String → Upcall Json
  remote_candidate : String → String → String → ℤ → Upcall Json
  notification : Json → Upcall Json

-- `if (callback) callback(...)`.
unfoldable pub if_set {ℓ} : {A : Type ℓ} → Bool → A → Option A
if_set set a = if set then some a else none

module _ (J : JsonLib) where
  -- The text of a member, and "" if it is missing.
  unfoldable pub text_of : J.Json → String → Option String
  text_of msg k = if J.contains msg k then J.get_string msg k else some ""

  unfoldable pub stream_of : J.Json → Option String
  stream_of msg = if J.contains msg "streamId" then J.value msg "streamId" "" else some ""

  -- The chain of tests on the command.
  unfoldable pub route : Command → J.Json → String → String → Option (Option (Upcall J.Json))
  unfolding if_set
  route c msg command stream_id =
      if command == "start"
      then some (if_set c.on_start_offerer (start_offerer stream_id))
      else if command == "takeConfiguration"
      then (do
        type ← J.value msg "type" ""
        sdp ← J.value msg "sdp" ""
        some (if_set c.on_remote_sdp (remote_sdp stream_id type sdp)))
      else if command == "takeCandidate"
      then (do
        cand ← J.value msg "candidate" ""
        mid ← J.value msg "id" ""
        label ← J.value_int msg "label" (pos 0)
        some (if_set c.on_remote_candidate (remote_candidate stream_id cand mid label)))
      else if command == "notification"
      then some (if_set c.on_notification (notification msg))
      else some none

  -- After the first test: the command is read, then the definition, then the stream.
  unfoldable pub handle_command : Command → J.Json → Option (Option (Upcall J.Json))
  unfolding route stream_of text_of
  handle_command c msg = do
    command ← J.value msg "command" ""
    definition ← text_of msg "definition"
    if J.contains msg "definition" && definition == "bitrateMeasurement"
        then some none
        else (do stream_id ← stream_of msg; route c msg command stream_id)

  unfoldable pub handle_message : Command → J.Json → Option (Option (Upcall J.Json))
  unfolding handle_command
  handle_message c msg = if J.contains msg "command" then handle_command c msg else some none
