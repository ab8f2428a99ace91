-- ===== src/Manager/Running/Facts.antt =====
-- The invariant, and the steps that cannot touch it.
use ant_media_server_confere.Base.{ℕ, String, ◌≡◌, Bool, true, false, List, arith}
use ant_media_server_confere.Base.Dict.{contains, insert, lookup-insert}
use ant_media_server_confere.Base.Exec.{Exec, modify, call, emit}
use ant_media_server_confere.Base.Exec.Keeps.{
  Keeps, Keeps-call, Keeps-emit, Keeps-modify, Keeps-with_part, keeps_rules,
}
use ant_media_server_confere.Platform.{Call}
use ant_media_server_confere.Signaling.State.{Signaling}
use ant_media_server_confere.Gst.State.{Gst}
use ant_media_server_confere.Manager.State.{Manager, with_signaling, with_gst}

-- A local data channel has a peer connection, and a peer connection has an entry in isPublisher.
pub record IsRunning (m : Manager) (cs : List Call) : Type 0 where
  pub communicating : m.is_communicating ≡ true
  pub channel_has_peer :
      (k : String) → contains k m.local_data_channels ≡ true → contains k m.pcs ≡ true
  pub peer_has_role : (k : String) → contains k m.pcs ≡ true → contains k m.is_publisher ≡ true

pub call-IsRunning : (throws : List Call → Bool) (c : Call) → Keeps IsRunning (call throws c)
call-IsRunning throws c = Keeps-call throws c (λ s cs h. record {
  communicating = h.communicating;
  channel_has_peer = h.channel_has_peer;
  peer_has_role = h.peer_has_role;
})

pub emit-IsRunning : (c : Call) → Keeps IsRunning (emit c)
emit-IsRunning c = Keeps-emit c (λ s cs h. record {
  communicating = h.communicating;
  channel_has_peer = h.channel_has_peer;
  peer_has_role = h.peer_has_role;
})

pub with_signaling-IsRunning :
    (m : Exec Signaling Call (Unit {0})) → Keeps IsRunning (with_signaling m)
unfolding with_signaling
with_signaling-IsRunning m = Keeps-with_part _ _ _ m (λ s cs ds t u h e. record {
  communicating = h.communicating;
  channel_has_peer = h.channel_has_peer;
  peer_has_role = h.peer_has_role;
})

pub with_gst-IsRunning : (m : Exec Gst Call (Unit {0})) → Keeps IsRunning (with_gst m)
unfolding with_gst
with_gst-IsRunning m = Keeps-with_part _ _ _ m (λ s cs ds t u h e. record {
  communicating = h.communicating;
  channel_has_peer = h.channel_has_peer;
  peer_has_role = h.peer_has_role;
})

pub ruleset running_rules =
    (keeps_rules, call-IsRunning, emit-IsRunning, with_signaling-IsRunning, with_gst-IsRunning)

pub add_peer-IsRunning :
    (stream_id : String) (pc : ℕ)
    → Keeps IsRunning (
        modify (λ m. record m {
          pcs = insert stream_id pc m.pcs;
          is_publisher = insert stream_id false m.is_publisher;
        }))
add_peer-IsRunning stream_id pc = Keeps-modify _ λ s cs h. record {
  communicating = h.communicating;
  channel_has_peer =
      λ k e. ground (arith, h.channel_has_peer k e, lookup-insert k stream_id pc s.pcs);
  peer_has_role = λ k e. ground (
    arith,
    h.peer_has_role k,
    lookup-insert k stream_id pc s.pcs,
    lookup-insert k stream_id false s.is_publisher,
  );
}

-- A write to the other members.
pub frame-IsRunning :
    (f : Manager → Manager)
    → ((m : Manager) → (f m).is_communicating ≡ m.is_communicating)
    → ((m : Manager) → (f m).local_data_channels ≡ m.local_data_channels)
    → ((m : Manager) → (f m).pcs ≡ m.pcs)
    → ((m : Manager) → (f m).is_publisher ≡ m.is_publisher)
    → Keeps IsRunning (modify f)
frame-IsRunning f c l p r = Keeps-modify f λ s cs h. record {
  communicating = rw (c s) h.communicating;
  channel_has_peer = λ k. rw (l s, p s) (h.channel_has_peer k);
  peer_has_role = λ k. rw (p s, r s) (h.peer_has_role k);
}
