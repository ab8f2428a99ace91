-- ===== src/Protocol/Labels.antt =====
-- The labels of the candidates that a client sends.
use mathlib.Core.Path.{refl}
use ant_media_server_confere.Base.{
  ℕ, suc, ◌+◌, String, ◌≡◌, ap, ◌∙◌, true, false, some, List, [], ◌∷◌, arith,
}
use ant_media_server_confere.Base.Exec.{
  Exec, done, pure, gets, try_pure, modify, call, when, bind_done, ◌>>=◌, ◌>>◌,
}
use ant_media_server_confere.Platform.{JsonLib, Rtc, Call, ws_send, Candidate}
use ant_media_server_confere.Command.State.{Command}
use ant_media_server_confere.Command.Outgoing.{take_candidate, send_json, send_take_candidate}

abbrev pub length : List (String × Candidate) → ℕ
length [] = 0
length (c ∷ l) = suc (length l)

module _ (J : JsonLib) (R : Rtc) where
  -- sendTakeCandidate for each candidate, in their order.
  unfoldable pub send_all : List (String × Candidate) → Exec Command Call (Unit {0})
  unfolding pure
  send_all [] = pure tt
  send_all ((stream_id, cand) ∷ rest) = do send_take_candidate J R stream_id cand; send_all rest

module _ (J : JsonLib) (text : J.Json → String) where
  -- The calls that send candidates under the labels from `n` on, on top of earlier calls.
  abbrev pub labelled : ℕ → List (String × Candidate) → List Call → List Call
  labelled n [] cs = cs
  labelled n ((stream_id, cand) ∷ rest) cs =
      labelled (suc n) rest (ws_send (text (take_candidate J stream_id cand n)) ∷ cs)

  -- Each of these messages can be written, and `text` is how.
  abbrev pub Writable : ℕ → List (String × Candidate) → Type 0
  Writable n [] = Unit
  Writable n ((stream_id, cand) ∷ rest) =
      (J.dump (take_candidate J stream_id cand n) ≡ some (text (take_candidate J stream_id cand n)))
      × Writable (suc n) rest

module _ (J : JsonLib) (R : Rtc) (text : J.Json → String)
    (quiet : (s : String) (cs : List Call) → R.throws (ws_send s ∷ cs) ≡ false) where
  send_json_sent :
      (j : J.Json) (c : Command) (cs : List Call)
      → c.ws ≡ true
      → J.dump j ≡ some (text j)
      → send_json J R j c cs ≡ done tt c (ws_send (text j) ∷ cs)
  unfolding send_json gets when try_pure call ◌>>=◌
  send_json_sent j c cs e dumps = simp e (simp dumps (simp (quiet (text j) cs)))

  -- If the link throws nothing and the messages can be written, the candidates of all streams together are sent in their
  -- order under consecutive labels from the client's counter on, and the counter is past the last.
  pub send_all-labelled :
      (l : List (String × Candidate)) (c : Command) (cs : List Call)
      → c.ws ≡ true
      → Writable J text c.cand_label l
      → send_all J R l c cs
        ≡ done tt
            (record c { cand_label = c.cand_label + length l })
            (labelled J text c.cand_label l cs)
  unfolding send_all send_take_candidate gets modify pure
  send_all-labelled [] c cs e writable =
      ap (λ n. done tt (record c { cand_label = n }) cs) (omega arith)
  send_all-labelled ((stream_id, cand) ∷ rest) c cs e writable =
      let c₁ : Command = record c { cand_label = suc c.cand_label } in
      let cs₁ : List Call = ws_send (text (take_candidate J stream_id cand c.cand_label)) ∷ cs in
      bind_done _ _ c cs (
        bind_done _ _ c cs refl
        ∙ bind_done _ _ c cs refl
        ∙ send_json_sent (take_candidate J stream_id cand c.cand_label) c₁ cs e writable.0)
      ∙ send_all-labelled rest c₁ cs₁ e writable.1
      ∙ ap
          (λ n. done tt (record c { cand_label = n }) (labelled J text (suc c.cand_label) rest cs₁))
          (omega arith)
