-- ===== src/Protocol/Events.antt =====
-- The names of the server's notifications, and the end of the link.
use mathlib.Core.Path.{refl}
use ant_media_server_confere.Base.{
  ◌↔◌, String, string_dec, ◌≡◌, ◌∙◌, ◌≢◌, Bool, true, false, none, some, List, ◌∷◌, arith,
}
use ant_media_server_confere.Base.Exec.{
  done, gets, modify, call, emit, when, swallow, bind_done, swallow-call, ◌>>◌,
}
use ant_media_server_confere.Platform.{JsonLib, Rtc, Call, ws_close, ws_clear_callbacks}
use ant_media_server_confere.Signaling.State.{AmsEvent, unknown, Signaling}
use ant_media_server_confere.Signaling.Dispatch.{string_to_event, read_message}
use ant_media_server_confere.Signaling.Link.{disconnect}

-- The definition under which the server announces an event.
abbrev pub event_name : AmsEvent → String
event_name AmsEvent.joined_the_room = "joinedTheRoom"
event_name AmsEvent.publish_started = "publish_started"
event_name AmsEvent.play_started = "play_started"
event_name AmsEvent.play_finished = "play_finished"
event_name AmsEvent.subtrack_added = "subtrackAdded"
event_name AmsEvent.subtrack_removed = "subtrackRemoved"
event_name AmsEvent.unknown = ""

event_of_name : (s : String) (e : AmsEvent) → string_to_event s ≡ e → e ≢ unknown → s ≡ event_name e
unfolding string_to_event
event_of_name s AmsEvent.joined_the_room h n = ground arith
event_of_name s AmsEvent.publish_started h n = ground arith
event_of_name s AmsEvent.play_started h n = ground arith
event_of_name s AmsEvent.play_finished h n = ground arith
event_of_name s AmsEvent.subtrack_added h n = ground arith
event_of_name s AmsEvent.subtrack_removed h n = ground arith
event_of_name s AmsEvent.unknown h n = absurd (n refl)

-- A text is read as a given known event exactly if it is the name of that event.
pub string_to_event-event_name :
    (s : String) (e : AmsEvent) → e ≢ unknown → (string_to_event s ≡ e) ↔ (s ≡ event_name e)
unfolding string_to_event string_dec
string_to_event-event_name s e known = (λ h. event_of_name s e h known, λ h. rw h (named e))
  where
    named : (e : AmsEvent) → string_to_event (event_name e) ≡ e
    named AmsEvent.joined_the_room = refl
    named AmsEvent.publish_started = refl
    named AmsEvent.play_started = refl
    named AmsEvent.play_finished = refl
    named AmsEvent.subtrack_added = refl
    named AmsEvent.subtrack_removed = refl
    named AmsEvent.unknown = refl

module _ (J : JsonLib) (R : Rtc) where
  -- Closing the link never throws; whatever state it was in, afterwards it is not open, and no
  -- message of the socket reaches the manager.
  pub disconnect_deaf :
      (s : Signaling) (cs : List Call) (text : String)
      → (ds : List Call) × (t : Signaling) × (disconnect R s cs ≡ done tt t ds)
        × (t.ws_open ≡ false)
        × (read_message J t text ≡ some none)
  unfolding disconnect read_message gets modify emit when
  disconnect_deaf s cs text = let (ds, p) = finish s.ws_open in (ds, final, deafen ∙ p, refl, refl)
    where
      deaf : Signaling
      deaf = record s { ws_callbacks = false }

      final : Signaling
      final = record s { ws_callbacks = false; ws_open = false }

      finish :
          (b : Bool)
          → (ds : List Call) × ((do
            when b (swallow (call R.throws ws_close))
            modify (λ s. record s { ws_open = false }))
                deaf
                (ws_clear_callbacks ∷ cs)
              ≡ done tt final ds)
      finish true = (
        ws_close ∷ ws_clear_callbacks ∷ cs,
        bind_done _ _ deaf _ (swallow-call R.throws ws_close deaf _),
      )
      finish false = (ws_clear_callbacks ∷ cs, bind_done _ _ deaf _ refl)

      deafen :
          disconnect R s cs
          ≡ (do
            when s.ws_open (swallow (call R.throws ws_close))
            modify (λ s. record s { ws_open = false }))
              deaf
              (ws_clear_callbacks ∷ cs)
      deafen = bind_done _ _ s cs refl ∙ bind_done _ _ s _ refl ∙ bind_done _ _ deaf _ refl
