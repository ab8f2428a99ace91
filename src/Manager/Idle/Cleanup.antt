-- ===== src/Manager/Idle/Cleanup.antt =====
-- What cleanupResources leaves, stage by stage.
use mathlib.Core.Path.{refl}
use ant_media_server_confere.Base.{ℕ, String, ◌≡◌, Bool, true, false, none, List, [], ◌∷◌, arith}
use ant_media_server_confere.Base.Dict.{Dict, contains, lookup-insert, lookup-nil}
use ant_media_server_confere.Base.Exec.{Exec, modify, call, emit}
use ant_media_server_confere.Base.Exec.Keeps.{
  Keeps, Keeps-call, Keeps-emit, Keeps-modify, Keeps-bind, Keeps-with_part, keeps_rules,
}
use ant_media_server_confere.Base.Exec.Ensures.{
  Ensures, Ensures-of_Keeps, Ensures-bind, Ensures-gets, Ensures-modify, Ensures-weaken,
}
use ant_media_server_confere.Platform.{JsonLib, Rtc, Call}
use ant_media_server_confere.Signaling.State.{Signaling}
use ant_media_server_confere.Manager.State.{Manager, with_signaling}
use ant_media_server_confere.Manager.Lifecycle.{
  touch, close_peers, say_goodbye, clear_maps, leave_if_publisher, drop_gst, drop_signaling,
  cleanup_resources,
}
use ant_media_server_confere.Manager.Running.Facts.{IsRunning, running_rules}
use ant_media_server_confere.Manager.Idle.Facts.{HoldsNothing}

-- The stages of cleanupResources.
record GstGone (m : Manager) (cs : List Call) : Type 0 where
  running : IsRunning m cs
  gst_gone : m.gst ≡ none

record MapsGone (m : Manager) (cs : List Call) : Type 0 where
  running : IsRunning m cs
  nothing : HoldsNothing m

pub record AllGone (m : Manager) (cs : List Call) : Type 0 where
  pub running : IsRunning m cs
  pub signaling_gone : m.signaling ≡ none
  pub nothing : HoldsNothing m

IsRunning_calls : (m : Manager) (cs ds : List Call) → IsRunning m cs → IsRunning m ds
IsRunning_calls m cs ds h = record {
  communicating = h.communicating;
  channel_has_peer = h.channel_has_peer;
  peer_has_role = h.peer_has_role;
}

call-GstGone : (throws : List Call → Bool) (c : Call) → Keeps GstGone (call throws c)
call-GstGone throws c =
    Keeps-call throws c (λ m cs h. record {
      running = IsRunning_calls m cs (c ∷ cs) h.running;
      gst_gone = h.gst_gone;
    })

emit-GstGone : (c : Call) → Keeps GstGone (emit c)
emit-GstGone c =
    Keeps-emit c (λ m cs h. record {
      running = IsRunning_calls m cs (c ∷ cs) h.running;
      gst_gone = h.gst_gone;
    })

with_signaling-MapsGone : (x : Exec Signaling Call (Unit {0})) → Keeps MapsGone (with_signaling x)
unfolding with_signaling
with_signaling-MapsGone x = Keeps-with_part _ _ _ x (λ m cs ds t u h e. record {
  running = record {
    communicating = h.running.communicating;
    channel_has_peer = h.running.channel_has_peer;
    peer_has_role = h.running.peer_has_role;
  };
  nothing = record {
    gst_gone = h.nothing.gst_gone;
    pcs_gone = h.nothing.pcs_gone;
    is_publisher_gone = h.nothing.is_publisher_gone;
    send_play_gone = h.nothing.send_play_gone;
    played_gone = h.nothing.played_gone;
    remote_tracks_gone = h.nothing.remote_tracks_gone;
    pending_candidates_gone = h.nothing.pending_candidates_gone;
    mid_type_map_gone = h.nothing.mid_type_map_gone;
    local_data_channels_gone = h.nothing.local_data_channels_gone;
    remote_data_channels_gone = h.nothing.remote_data_channels_gone;
    is_stream_talking_gone = h.nothing.is_stream_talking_gone;
  };
})

touch-contains :
    (j k : String) (d : Dict Bool) → contains j d ≡ true → contains j (touch k d) ≡ true
unfolding touch
touch-contains j k d h = ground (arith, lookup-insert j k false d)

touch-IsRunning :
    Keeps IsRunning
      (modify (λ m. record m { is_publisher = touch m.publish_stream_id m.is_publisher }))
touch-IsRunning = Keeps-modify _ λ m cs h. record {
  communicating = h.communicating;
  channel_has_peer = h.channel_has_peer;
  peer_has_role = λ j e. touch-contains j m.publish_stream_id m.is_publisher (h.peer_has_role j e);
}

module _ (J : JsonLib) (R : Rtc) where
  say_goodbye-IsRunning : Keeps IsRunning (say_goodbye J R)
  unfolding say_goodbye
  say_goodbye-IsRunning = search running_rules depth 20

  leave_if_publisher-IsRunning : Keeps IsRunning (leave_if_publisher J R)
  unfolding leave_if_publisher
  leave_if_publisher-IsRunning =
      search (running_rules, touch-IsRunning, say_goodbye-IsRunning) depth 20

  drop_gst-GstGone : Ensures IsRunning (drop_gst J R) (λ _. GstGone) IsRunning
  unfolding drop_gst
  drop_gst-GstGone = Ensures-bind (Ensures-of_Keeps (search running_rules)) (λ _.
      Ensures-bind (Ensures-of_Keeps (search running_rules)) (λ _. Ensures-modify _ (λ m cs h.
        record {
          running = record {
            communicating = h.communicating;
            channel_has_peer = h.channel_has_peer;
            peer_has_role = h.peer_has_role;
          };
          gst_gone = refl;
        })))

  close_peers-GstGone : (peers : Dict ℕ) → Keeps GstGone (close_peers J R peers)
  unfolding close_peers
  close_peers-GstGone [] = search keeps_rules
  close_peers-GstGone ((id, pc) ∷ rest) =
      Keeps-bind _ _ (emit-GstGone _)
        (λ _. Keeps-bind _ _ (call-GstGone _ _) (λ _. close_peers-GstGone rest))

  clear_maps-MapsGone :
      (m : Manager) (cs : List Call) → GstGone m cs → MapsGone (clear_maps J R m) cs
  unfolding clear_maps
  clear_maps-MapsGone m cs h = record {
    running = record {
      communicating = h.running.communicating;
      channel_has_peer = λ k e. absurd (ground (arith, lookup-nil {V = ℕ} k));
      peer_has_role = λ k e. absurd (ground (arith, lookup-nil {V = ℕ} k));
    };
    nothing = record {
      gst_gone = h.gst_gone;
      pcs_gone = refl;
      is_publisher_gone = refl;
      send_play_gone = refl;
      played_gone = refl;
      remote_tracks_gone = refl;
      pending_candidates_gone = refl;
      mid_type_map_gone = refl;
      local_data_channels_gone = refl;
      remote_data_channels_gone = refl;
      is_stream_talking_gone = refl;
    };
  }

  drop_signaling-AllGone : Ensures MapsGone (drop_signaling J R) (λ _. AllGone) MapsGone
  unfolding drop_signaling
  drop_signaling-AllGone = Ensures-bind (Ensures-of_Keeps (with_signaling-MapsGone _)) (λ _.
      Ensures-bind (Ensures-of_Keeps (with_signaling-MapsGone _)) (λ _.
        Ensures-bind (Ensures-of_Keeps (with_signaling-MapsGone _))
          (λ _. Ensures-modify _ no_context)))
    where
      no_context :
          (m : Manager) (cs : List Call)
          → MapsGone m cs
          → AllGone (record m { signaling = none }) cs
      no_context m cs h = record {
        running = record {
          communicating = h.running.communicating;
          channel_has_peer = h.running.channel_has_peer;
          peer_has_role = h.running.peer_has_role;
        };
        signaling_gone = refl;
        nothing = record {
          gst_gone = h.nothing.gst_gone;
          pcs_gone = h.nothing.pcs_gone;
          is_publisher_gone = h.nothing.is_publisher_gone;
          send_play_gone = h.nothing.send_play_gone;
          played_gone = h.nothing.played_gone;
          remote_tracks_gone = h.nothing.remote_tracks_gone;
          pending_candidates_gone = h.nothing.pending_candidates_gone;
          mid_type_map_gone = h.nothing.mid_type_map_gone;
          local_data_channels_gone = h.nothing.local_data_channels_gone;
          remote_data_channels_gone = h.nothing.remote_data_channels_gone;
          is_stream_talking_gone = h.nothing.is_stream_talking_gone;
        };
      }

  pub cleanup_resources-AllGone : Ensures IsRunning (cleanup_resources J R) (λ _. AllGone) IsRunning
  unfolding cleanup_resources
  cleanup_resources-AllGone = Ensures-bind (Ensures-of_Keeps leave_if_publisher-IsRunning) (λ _.
      Ensures-bind drop_gst-GstGone (λ _.
        Ensures-bind
          (Ensures-weaken (Ensures-gets (λ m. m.pcs)) (λ m cs h. h) (λ _ m cs h. h.0) (λ m cs h. h))
          (λ peers.
            Ensures-bind
              (Ensures-weaken (Ensures-of_Keeps (close_peers-GstGone peers)) (λ m cs h. h)
                (λ _ m cs h. h) (λ m cs h. h.running))
              (λ _. Ensures-bind (Ensures-modify _ clear_maps-MapsGone) (λ _.
                Ensures-weaken drop_signaling-AllGone (λ m cs h. h) (λ _ m cs h. h)
                  (λ m cs h. h.running))))))
