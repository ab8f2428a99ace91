-- ===== src/Api/Settings.antt =====
-- Calls in a row of the functions of WebRTC_API.cpp that set the server, the room and the stream, and
-- what `main` sets.
use mathlib.Core.Path.{refl}
use ant_media_server_confere.Base.{String, ◌≡◌, ◌∙◌, Option, none, some, List, [], ◌∷◌}
use ant_media_server_confere.Base.Exec.{done, pure, modify, with_part, bind_done, ◌>>=◌, ◌>>◌}
use ant_media_server_confere.Platform.{Call}
use ant_media_server_confere.Manager.State.{
  Manager, create, set_room_id, set_stream_id, set_signaling_server_url,
}
use ant_media_server_confere.Api.Instance.{
  Api, ensure, webrtc_init, with_instance, webrtc_set_signaling_server_url, webrtc_set_room_id,
  webrtc_set_stream_id, set_up,
}

pub data Setting : Type 0 where
  init : Setting
  url room stream : String → Setting

abbrev pub use_setting : Setting → Api (Unit {0})
use_setting init = webrtc_init
use_setting (url s) = webrtc_set_signaling_server_url s
use_setting (room s) = webrtc_set_room_id s
use_setting (stream s) = webrtc_set_stream_id s

abbrev pub use_settings : List Setting → Api (Unit {0})
use_settings [] = pure tt
use_settings (u ∷ us) = use_setting u >> use_settings us

-- The last value that is set, or the one that was there.
abbrev pub last_url : String → List Setting → String
last_url v [] = v
last_url v (init ∷ us) = last_url v us
last_url v (url s ∷ us) = last_url s us
last_url v (room s ∷ us) = last_url v us
last_url v (stream s ∷ us) = last_url v us

abbrev pub last_room : String → List Setting → String
last_room v [] = v
last_room v (init ∷ us) = last_room v us
last_room v (url s ∷ us) = last_room v us
last_room v (room s ∷ us) = last_room s us
last_room v (stream s ∷ us) = last_room v us

abbrev pub last_stream : String → List Setting → String
last_stream v [] = v
last_stream v (init ∷ us) = last_stream v us
last_stream v (url s ∷ us) = last_stream v us
last_stream v (room s ∷ us) = last_stream v us
last_stream v (stream s ∷ us) = last_stream s us

abbrev pub settled : List Setting → Manager → Manager
settled us m = record m {
  signaling_server_url = last_url m.signaling_server_url us;
  room_id = last_room m.room_id us;
  publish_stream_id = last_stream m.publish_stream_id us;
}

-- With no manager, what stands before the first call that makes one is lost.
abbrev pub settled_from_none : List Setting → Option Manager
settled_from_none [] = none
settled_from_none (init ∷ us) = some (settled us create)
settled_from_none (url s ∷ us) = some (settled (url s ∷ us) create)
settled_from_none (room s ∷ us) = settled_from_none us
settled_from_none (stream s ∷ us) = settled_from_none us

-- One call on a manager that is there.
use_setting-settled :
    (u : Setting) (m : Manager) (cs : List Call)
    → use_setting u (some m) cs ≡ done tt (some (settled (u ∷ []) m)) cs
unfolding webrtc_init webrtc_set_signaling_server_url webrtc_set_room_id webrtc_set_stream_id
    with_instance with_part set_signaling_server_url set_room_id set_stream_id modify ensure ◌>>=◌
use_setting-settled init m cs = refl
use_setting-settled (url s) m cs = refl
use_setting-settled (room s) m cs = refl
use_setting-settled (stream s) m cs = refl

settled-settled :
    (u : Setting) (us : List Setting) (m : Manager)
    → settled us (settled (u ∷ []) m) ≡ settled (u ∷ us) m
settled-settled init us m = refl
settled-settled (url s) us m = refl
settled-settled (room s) us m = refl
settled-settled (stream s) us m = refl

use_settings-some :
    (us : List Setting) (m : Manager) (cs : List Call)
    → use_settings us (some m) cs ≡ done tt (some (settled us m)) cs
unfolding pure
use_settings-some [] m cs = refl
use_settings-some (u ∷ us) m cs =
    bind_done (use_setting u) (λ _. use_settings us) (some m) cs (use_setting-settled u m cs)
    ∙ use_settings-some us (settled (u ∷ []) m) cs
    ∙ rw (settled-settled u us m) refl

made :
    (us : List Setting) (cs : List Call)
    → use_settings (init ∷ us) none cs ≡ use_settings us (some create) cs
unfolding webrtc_init modify ensure ◌>>=◌
made us cs = refl

made_by_url :
    (s : String) (us : List Setting) (cs : List Call)
    → use_settings (url s ∷ us) none cs ≡ use_settings (url s ∷ us) (some create) cs
unfolding webrtc_set_signaling_server_url webrtc_init with_instance with_part
    set_signaling_server_url modify ensure ◌>>=◌
made_by_url s us cs = refl

lost_room :
    (s : String) (us : List Setting) (cs : List Call)
    → use_settings (room s ∷ us) none cs ≡ use_settings us none cs
unfolding webrtc_set_room_id with_instance with_part ◌>>=◌
lost_room s us cs = refl

lost_stream :
    (s : String) (us : List Setting) (cs : List Call)
    → use_settings (stream s ∷ us) none cs ≡ use_settings us none cs
unfolding webrtc_set_stream_id with_instance with_part ◌>>=◌
lost_stream s us cs = refl

-- Whatever functions of init, server, room and stream are called, in whatever order: the manager of
-- the process then has the last server, the last room and the last stream that were set, each in its
-- own field, and nothing else of it changes; nothing is called. With no manager at the start, the rooms
-- and streams set before the first init or server are lost, and the manager is otherwise new; it
-- is still missing if no init and no server was among them.
pub use_settings-settled :
    (us : List Setting) (m : Manager) (cs : List Call)
    → (use_settings us (some m) cs ≡ done tt (some (settled us m)) cs)
      × (use_settings us none cs ≡ done tt (settled_from_none us) cs)
unfolding pure
use_settings-settled [] m cs = (refl, refl)
use_settings-settled (init ∷ us) m cs =
    (use_settings-some (init ∷ us) m cs, made us cs ∙ use_settings-some us create cs)
use_settings-settled (url s ∷ us) m cs = (
  use_settings-some (url s ∷ us) m cs,
  made_by_url s us cs ∙ use_settings-some (url s ∷ us) create cs,
)
use_settings-settled (room s ∷ us) m cs =
    (use_settings-some (room s ∷ us) m cs, lost_room s us cs ∙ (use_settings-settled us m cs).1)
use_settings-settled (stream s ∷ us) m cs =
    (use_settings-some (stream s ∷ us) m cs, lost_stream s us cs ∙ (use_settings-settled us m cs).1)

-- With no manager at the start, `main` makes one that has the server, the room and the stream that
-- were set, and is otherwise new, before it starts the communication; nothing is called.
pub set_up-create :
    (ams_url stream_id : String) (cs : List Call)
    → set_up ams_url stream_id none cs
      ≡ done tt
          (some (record create {
            signaling_server_url = ams_url;
            room_id = "room1";
            publish_stream_id = stream_id;
          }))
          cs
unfolding set_up webrtc_init webrtc_set_signaling_server_url webrtc_set_room_id webrtc_set_stream_id
    with_instance with_part set_signaling_server_url set_room_id set_stream_id modify ensure ◌>>=◌
set_up-create ams_url stream_id cs = refl
