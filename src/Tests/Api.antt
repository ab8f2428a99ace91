-- ===== src/Tests/Api.antt =====
-- Uses of the API.
use mathlib.Core.Path.{refl}
use ant_media_server_confere.Base.{◌≡◌, none, some, List, [], ◌∷◌}
use ant_media_server_confere.Base.Exec.{done}
use ant_media_server_confere.Manager.State.{create}
use ant_media_server_confere.Api.Settings.{
  Setting, init, url, room, stream, use_settings, settled, settled_from_none, use_settings-settled,
}

-- A room before there is a manager, and two servers.
abbrev settings : List Setting
settings =
    room "lost" ∷ url "ws://first" ∷ room "room1" ∷ init ∷ url "ws://server" ∷ stream "me" ∷ []

use_settings-settled_example :
    (use_settings settings (some create) [] ≡ done tt (some (settled settings create)) [])
    × (use_settings settings none [] ≡ done tt (settled_from_none settings) [])
use_settings-settled_example = use_settings-settled settings create []

kept_settings :
    settled_from_none settings
    ≡ some (record create {
      signaling_server_url = "ws://server";
      room_id = "room1";
      publish_stream_id = "me";
    })
kept_settings = refl
