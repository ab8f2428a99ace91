-- ===== src/Manager/Idle/Facts.antt =====
-- A manager that is not communicating, and what holds between two steps.
use ant_media_server_confere.Base.{◌≡◌, false, none, List, [], ◌⊎◌}
use ant_media_server_confere.Platform.{Call}
use ant_media_server_confere.Manager.State.{Manager}
use ant_media_server_confere.Manager.Running.Facts.{IsRunning}

-- No pipelines and no entry in any map.
pub record HoldsNothing (m : Manager) : Type 0 where
  pub gst_gone : m.gst ≡ none
  pub pcs_gone : m.pcs ≡ []
  pub is_publisher_gone : m.is_publisher ≡ []
  pub send_play_gone : m.send_play ≡ []
  pub played_gone : m.played ≡ []
  pub remote_tracks_gone : m.remote_tracks ≡ []
  pub pending_candidates_gone : m.pending_candidates ≡ []
  pub mid_type_map_gone : m.mid_type_map ≡ []
  pub local_data_channels_gone : m.local_data_channels ≡ []
  pub remote_data_channels_gone : m.remote_data_channels ≡ []
  pub is_stream_talking_gone : m.is_stream_talking ≡ []

pub record IsIdle (m : Manager) (cs : List Call) : Type 0 where
  pub not_communicating : m.is_communicating ≡ false
  pub signaling_gone : m.signaling ≡ none
  pub nothing : HoldsNothing m

-- What holds of the manager between two steps.
abbrev pub IsConsistent : Manager → List Call → Type 0
IsConsistent m cs = IsIdle m cs ⊎ IsRunning m cs
