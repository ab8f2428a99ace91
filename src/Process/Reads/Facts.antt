-- ===== src/Process/Reads/Facts.antt =====
-- What a read and its lines mean for the program, without the threads and the buffer.
use mathlib.Core.Path.{refl}
use ant_media_server_confere.Base.{
  ℕ, String, ◌≡◌, Bool, false, Option, none, some, List, [], ◌∷◌, Bool-cases, inl, inr,
  if◌then◌else◌,
}
use ant_media_server_confere.Base.Exec.{Exec, Outcome, done, thrown, pure, modify, embed, ◌>>◌}
use ant_media_server_confere.Base.Exec.Ensures.{Post}
use ant_media_server_confere.Platform.{JsonLib, Rtc, Call}
use ant_media_server_confere.Manager.State.{Manager}
use ant_media_server_confere.Api.Instance.{webrtc_send_chat_message}
use ant_media_server_confere.Console.Input.{is_quit}
use ant_media_server_confere.Process.Threads.{
  ConsoleAt, Process, Turn, on_api, on_console_line, console_turn,
}

-- g_appRunning and g_webrtcManager.
pub record Program : Type 0 where
  pub running : Bool
  pub manager : Option Manager

abbrev pub program_of : Process → Program
program_of p = record { running = p.running; manager = p.manager }

-- What is left of the outcome of a turn when the threads and the buffer are forgotten.
abbrev pub seen : Outcome Process Call (Unit {0}) → Outcome Program Call (Unit {0})
seen = embed program_of

abbrev pub Any : Process → List Call → Type 0
Any p cs = Unit {0}

-- The buffer and the place in the loop.
abbrev pub Leaves : List ℕ → ConsoleAt → Process → Type 0
Leaves buffer at q = (q.buffer ≡ buffer) × (q.console_at ≡ at)

module _ (J : JsonLib) (R : Rtc) (text_of : List ℕ → String) where
  -- `quit` ends the program, and any other line is a chat message.
  unfoldable pub say : List ℕ → Exec Program Call (Unit {0})
  unfolding modify
  say line = if is_quit line then modify (λ s. record s { running = false }) else λ s cs.
      embed (λ o. record s { manager = o })
        (webrtc_send_chat_message J R (text_of line) s.manager cs)

  unfoldable pub say_all : List (List ℕ) → Exec Program Call (Unit {0})
  unfolding say pure
  say_all [] = pure tt
  say_all (line ∷ lines) = do say line; say_all lines

  -- A turn for each line, and one that finds no line.
  unfoldable pub inner_loop : List (List ℕ) → Turn
  unfolding console_turn
  inner_loop [] = console_turn J R text_of none
  inner_loop (line ∷ lines) = do console_turn J R text_of none; inner_loop lines

  -- `poll` and `read` with a chunk, and then the inner loop over the lines.
  unfoldable pub read_turns : List ℕ → List (List ℕ) → Turn
  unfolding inner_loop
  read_turns chunk lines = do console_turn J R text_of (some chunk); inner_loop lines

  embed-embed :
      (p : Process) (o : Outcome (Option Manager) Call (Unit {0}))
      → seen (embed (λ x. record p { manager = x }) o)
        ≡ embed (λ x. record (program_of p) { manager = x }) o
  embed-embed p (done a x cs) = refl
  embed-embed p (thrown x cs) = refl

  embed-Leaves :
      (p : Process) (o : Outcome (Option Manager) Call (Unit {0}))
      → Post (λ _ q _. Leaves p.buffer p.console_at q) Any (embed (λ x. record p { manager = x }) o)
  embed-Leaves p (done a x cs) = (refl, refl)
  embed-Leaves p (thrown x cs) = tt

  pub on_console_line-say :
      (line : List ℕ) (p : Process) (cs : List Call)
      → seen (on_console_line J R text_of line p cs) ≡ say line (program_of p) cs
  unfolding on_console_line say on_api modify
  on_console_line-say line p cs = elim (Bool-cases (is_quit line)) [
    | inl quit ↦ rw quit refl
    | inr other ↦
        rw other (embed-embed p (webrtc_send_chat_message J R (text_of line) p.manager cs))
  ]

  pub on_console_line-Leaves :
      (line : List ℕ) (p : Process) (cs : List Call)
      → Post (λ _ q _. Leaves p.buffer p.console_at q) Any (on_console_line J R text_of line p cs)
  unfolding on_console_line on_api modify
  on_console_line-Leaves line p cs = elim (Bool-cases (is_quit line)) [
    | inl quit ↦ rw quit (refl, refl)
    | inr other ↦
        rw other (embed-Leaves p (webrtc_send_chat_message J R (text_of line) p.manager cs))
  ]
