-- ===== src/Protocol/Messages.antt =====
-- The messages that a client writes are the ones that `handleMessage` reads.
use mathlib.Core.Path.{refl}
use ant_media_server_confere.Base.{
  ℕ, String, string_dec, ◌≡◌, sym, ap, ◌∙◌, true, Option, none, some, List, [], ◌∷◌, arith, ◌⊎◌,
}
use ant_media_server_confere.Base.Dict.{lookup, insert}
use ant_media_server_confere.Platform.{JsonLib, Candidate}
use ant_media_server_confere.Platform.Int.{pos}
use ant_media_server_confere.Command.State.{Command, shutdown}
use ant_media_server_confere.Command.Outgoing.{take_configuration, take_candidate}
use ant_media_server_confere.Command.Incoming.{
  Upcall, remote_sdp, remote_candidate, handle_message, ◌>>=◌,
}
use ant_media_server_confere.Protocol.Json.{IsLawful}

-- Parse and handle the text of a message.
abbrev pub receive : (J : JsonLib) → Command → String → Option (Option (Upcall J.Json))
receive J c text = J.parse text >>= handle_message J c

-- The members of a description and of a candidate, in the order in which they are written.
module _ (J : JsonLib) where
  abbrev Members : Type 0
  Members = List (String × J.Json)

  abbrev description_members : String → String → String → Members
  description_members stream_id type sdp =
      ("command", J.string "takeConfiguration")
      ∷ ("streamId", J.string stream_id)
      ∷ ("type", J.string type)
      ∷ ("sdp", J.string sdp)
      ∷ []

  abbrev candidate_members : String → String → ℕ → Members
  candidate_members stream_id cand label =
      ("command", J.string "takeCandidate")
      ∷ ("streamId", J.string stream_id)
      ∷ ("candidate", J.string cand)
      ∷ ("label", J.integer (pos label))
      ∷ []

module _ (J : JsonLib) (law : IsLawful J) where
  -- With a JSON library that keeps its laws, the text of a session description that one client
  -- writes reaches the set callback of another unchanged: the stream, the type and the SDP.
  pub receive-take_configuration :
      (c : Command) (stream_id type sdp text : String)
      → c.on_remote_sdp ≡ true
      → J.dump (take_configuration J stream_id type sdp) ≡ some text
      → receive J c text ≡ some (some (remote_sdp stream_id type sdp))
  unfolding take_configuration handle_message lookup string_dec
  receive-take_configuration c stream_id type sdp text bound sent =
      let fs : Members J = description_members J stream_id type sdp in
      rw (law.parse-dump fs text sent) (
        simp (
          law.contains-object,
          law.value-object "command" "" "takeConfiguration" fs refl,
          law.value-object "streamId" "" stream_id fs refl,
          law.value-object "type" "" type fs refl,
          law.value-object "sdp" "" sdp fs refl,
          bound,
        ))

  without_mid :
      (c : Command) (stream_id cand : String) (label : ℕ) (text : String)
      → c.on_remote_candidate ≡ true
      → J.dump (J.object (candidate_members J stream_id cand label)) ≡ some text
      → receive J c text ≡ some (some (remote_candidate stream_id cand "" (pos label)))
  unfolding handle_message lookup string_dec
  without_mid c stream_id cand label text bound sent =
      let fs : Members J = candidate_members J stream_id cand label in
      rw (law.parse-dump fs text sent) (
        simp (
          law.contains-object,
          law.value-object "command" "" "takeCandidate" fs refl,
          law.value-object "streamId" "" stream_id fs refl,
          law.value-object "candidate" "" cand fs refl,
          law.value_missing "id" "" fs refl,
          law.value_int-object "label" (pos 0) (pos label) fs refl,
          bound,
        ))

  with_mid :
      (c : Command) (stream_id cand mid : String) (label : ℕ) (text : String)
      → c.on_remote_candidate ≡ true
      → J.dump
          (J.set_member (J.object (candidate_members J stream_id cand label)) "id" (J.string mid))
        ≡ some text
      → receive J c text ≡ some (some (remote_candidate stream_id cand mid (pos label)))
  unfolding handle_message lookup insert string_dec
  with_mid c stream_id cand mid label text bound sent =
      let fs : Members J = insert "id" (J.string mid) (candidate_members J stream_id cand label) in
      rw (law.parse-dump fs text (sym (ap J.dump (law.set_member-object _ _ _)) ∙ sent)) (
        simp (
          law.contains-object,
          law.value-object "command" "" "takeCandidate" fs refl,
          law.value-object "streamId" "" stream_id fs refl,
          law.value-object "candidate" "" cand fs refl,
          law.value-object "id" "" mid fs refl,
          law.value_int-object "label" (pos 0) (pos label) fs refl,
          bound,
        ))

  take_candidate_bare :
      (stream_id : String) (cand : Candidate) (label : ℕ)
      → cand.mid ≡ ""
      → take_candidate J stream_id cand label
        ≡ J.object (candidate_members J stream_id cand.candidate label)
  unfolding take_candidate
  take_candidate_bare stream_id cand label e = ground arith

  take_candidate_full :
      (stream_id : String) (cand : Candidate) (label : ℕ)
      → ¬ (cand.mid ≡ "")
      → take_candidate J stream_id cand label
        ≡ J.set_member
            (J.object (candidate_members J stream_id cand.candidate label))
            "id"
            (J.string cand.mid)
  unfolding take_candidate
  take_candidate_full stream_id cand label n = ground arith

  -- With a JSON library that keeps its laws, the text of a candidate that one client writes reaches
  -- the set callback of another unchanged, also one with no mid, whose member is left out; its label
  -- is the sender's count.
  pub receive-take_candidate :
      (c : Command) (stream_id : String) (cand : Candidate) (label : ℕ) (text : String)
      → c.on_remote_candidate ≡ true
      → J.dump (take_candidate J stream_id cand label) ≡ some text
      → receive J c text
        ≡ some (some (remote_candidate stream_id cand.candidate cand.mid (pos label)))
  receive-take_candidate c stream_id cand label text bound sent = elim (string_dec cand.mid "") [
    | yes e ↦ rw e (
        without_mid c stream_id cand.candidate label text bound
          (sym (ap J.dump (take_candidate_bare stream_id cand label e)) ∙ sent))
    | no n ↦
        with_mid c stream_id cand.candidate cand.mid label text bound
          (sym (ap J.dump (take_candidate_full stream_id cand label n)) ∙ sent)
  ]

-- After `shutdown` no message reaches a callback: it is thrown out or has no effect.
pub handle_message-shutdown :
    (J : JsonLib) (c : Command) (msg : J.Json)
    → (handle_message J (shutdown c) msg ≡ none) ⊎ (handle_message J (shutdown c) msg ≡ some none)
unfolding handle_message shutdown
handle_message-shutdown J c msg = ground arith
