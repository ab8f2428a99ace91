-- ===== src/Process/Reads/Loop.antt =====
-- The turns of the console thread over one read.
use mathlib.Core.Path.{refl}
use ant_media_server_confere.Base.{
  ℕ, String, ◌≡◌, sym, ap, ◌∙◌, Option, none, some, List, [], ◌∷◌, ◌++◌, arith,
}
use ant_media_server_confere.Base.Exec.{Outcome, done, thrown, pure, modify, bind_done, ◌>>=◌, ◌>>◌}
use ant_media_server_confere.Base.Exec.Ensures.{Post, Post-weaken}
use ant_media_server_confere.Platform.{JsonLib, Rtc, Call}
use ant_media_server_confere.Console.Input.{c_string, take_line, feed}
use ant_media_server_confere.Console.Lines.{
  split, proper, split_proper, one_step, split-take_line, feed-split_proper,
}
use ant_media_server_confere.Process.Threads.{
  testing, polling, draining, Process, console_goes, read_input, on_console_line, give_line,
  take_round, console_at_turn, console_turn,
}
use ant_media_server_confere.Process.Reads.Facts.{
  Program, program_of, seen, Any, Leaves, say, say_all, inner_loop, read_turns, on_console_line-say,
  on_console_line-Leaves,
}

no_line :
    (buffer rest : List ℕ) (o : Option (List ℕ × List ℕ))
    → one_step buffer o ≡ ([], rest)
    → (o ≡ none) × (buffer ≡ rest)
no_line buffer rest none e = (refl, ap (λ x. x.1) e)
no_line buffer rest (some (line, r)) e = absurd (ground (arith, ap (λ x. x.0) e))

a_line :
    (buffer line : List ℕ) (lines : List (List ℕ)) (rest : List ℕ) (o : Option (List ℕ × List ℕ))
    → one_step buffer o ≡ (line ∷ lines, rest)
    → (r : List ℕ) × (o ≡ some (line, r)) × (split r ≡ (lines, rest))
a_line buffer line lines rest none e = absurd (ground (arith, ap (λ x. x.0) e))
a_line buffer line lines rest (some (l, r)) e =
    (r, cc (ap (λ x. x.0) e), cc (ap (λ x. x.0) e, ap (λ x. x.1) e))

module _ (J : JsonLib) (R : Rtc) (text_of : List ℕ → String) where
  draining_turn :
      (p : Process) (cs : List Call)
      → p.console_at ≡ draining
      → console_turn J R text_of none p cs ≡ take_round J R text_of (take_line p.buffer) p cs
  unfolding console_turn console_at_turn
  draining_turn p cs at = ap (λ a. console_at_turn J R text_of a none p p cs) at

  -- The outcome of the turns over these lines.
  record Said (lines : List (List ℕ)) (rest : List ℕ) (p : Process) (cs : List Call)
      (o : Outcome Process Call (Unit {0})) : Type 0 where
    same_said : seen o ≡ say_all J R text_of (proper lines) (program_of p) cs
    leaves : Post (λ _ q _. Leaves rest testing q) Any o

  abbrev go_on : List (List ℕ) → Outcome Process Call (Unit {0}) → Outcome Process Call (Unit {0})
  go_on lines (done a q ds) = inner_loop J R text_of lines q ds
  go_on lines (thrown q ds) = thrown q ds

  -- From the turns that follow a line to those of the line and what follows.
  goes_on-Said :
      (line : List ℕ) (lines : List (List ℕ)) (rest : List ℕ) (p : Process) (cs : List Call)
      (o : Outcome Process Call (Unit {0})) (buffer : List ℕ)
      → seen o ≡ say J R text_of line (program_of p) cs
      → Post (λ _ q _. Leaves buffer draining q) Any o
      → ((q : Process) (ds : List Call)
          → Leaves buffer draining q
          → Said lines rest q ds (inner_loop J R text_of lines q ds))
      → (seen (go_on lines o)
          ≡ (say J R text_of line >> say_all J R text_of (proper lines)) (program_of p) cs)
        × Post (λ _ q _. Leaves rest testing q) Any (go_on lines o)
  unfolding ◌>>=◌
  goes_on-Said line lines rest p cs (done a q ds) buffer e l later =
      ((later q ds l).same_said ∙ ap (continue) e, (later q ds l).leaves)
    where
      continue : Outcome Program Call (Unit {0}) → Outcome Program Call (Unit {0})
      continue x = elim x [
        | done a s ds ↦ say_all J R text_of (proper lines) s ds
        | thrown s ds ↦ thrown s ds
      ]
  goes_on-Said line lines rest p cs (thrown q ds) buffer e l later = (ap continue e, tt)
    where
      continue : Outcome Program Call (Unit {0}) → Outcome Program Call (Unit {0})
      continue x = elim x [
        | done a s ds ↦ say_all J R text_of (proper lines) s ds
        | thrown s ds ↦ thrown s ds
      ]

  -- A turn that finds a line.
  line_turn :
      (p : Process) (cs : List Call) (line r : List ℕ)
      → p.console_at ≡ draining
      → take_line p.buffer ≡ some (line, r)
      → console_turn J R text_of none p cs ≡ give_line J R text_of line (record p { buffer = r }) cs
  unfolding take_round modify ◌>>=◌
  line_turn p cs line r at found =
      draining_turn p cs at ∙ ap (λ o. take_round J R text_of o p cs) found

  loop_turn :
      (p : Process) (cs : List Call) (line r : List ℕ) (lines : List (List ℕ))
      → p.console_at ≡ draining
      → take_line p.buffer ≡ some (line, r)
      → inner_loop J R text_of (line ∷ lines) p cs
        ≡ go_on lines (give_line J R text_of line (record p { buffer = r }) cs)
  unfolding inner_loop ◌>>=◌
  loop_turn p cs line r lines at found =
      same (console_turn J R text_of none p cs) ∙ ap (go_on lines) (line_turn p cs line r at found)
    where
      same :
          (o : Outcome Process Call (Unit {0}))
          → ◌≡◌ {A = Outcome Process Call (Unit {0})}
              (elim o [
                | done a q ds ↦ inner_loop J R text_of lines q ds
                | thrown q ds ↦ thrown q ds
              ])
              (go_on lines o)
      same (done a q ds) = refl
      same (thrown q ds) = refl

  draining_after :
      (line : List ℕ) (p : Process) (cs : List Call)
      → p.console_at ≡ draining
      → Post (λ _ q _. Leaves p.buffer draining q) Any (on_console_line J R text_of line p cs)
  draining_after line p cs at =
      Post-weaken {Q' = λ _ q _. Leaves p.buffer draining q} {E' = Any}
        (on_console_line J R text_of line p cs) (λ _ q ds l. (l.0, l.1 ∙ at)) (λ _ _ h. h)
        (on_console_line-Leaves J R text_of line p cs)

  inner_loop-Said :
      (lines : List (List ℕ)) (rest : List ℕ) (p : Process) (cs : List Call)
      → p.console_at ≡ draining
      → split p.buffer ≡ (lines, rest)
      → Said lines rest p cs (inner_loop J R text_of lines p cs)
  unfolding inner_loop take_round give_line say_all proper console_goes modify pure ◌>>=◌
  inner_loop-Said [] rest p cs at e =
      let (none_left, same) =
        no_line p.buffer rest (take_line p.buffer) (sym (split-take_line p.buffer) ∙ e) in
      rw (draining_turn p cs at) (rw none_left (record { same_said = refl; leaves = (same, refl) }))
  inner_loop-Said ([] ∷ lines) rest p cs at e =
      let (r, found, parts) =
        a_line p.buffer [] lines rest (take_line p.buffer) (sym (split-take_line p.buffer) ∙ e) in
      let later : Said lines rest (record p { buffer = r }) cs
          (inner_loop J R text_of lines (record p { buffer = r }) cs) =
        inner_loop-Said lines rest (record p { buffer = r }) cs at parts in
      rw (loop_turn p cs [] r lines at found)
        (record { same_said = later.same_said; leaves = later.leaves })
  inner_loop-Said ((c ∷ line) ∷ lines) rest p cs at e =
      let (r, found, parts) =
        a_line p.buffer (c ∷ line) lines rest (take_line p.buffer)
          (sym (split-take_line p.buffer) ∙ e) in
      let p₁ : Process = record p { buffer = r } in
      let (same, left) =
        goes_on-Said (c ∷ line) lines rest p cs (on_console_line J R text_of (c ∷ line) p₁ cs) r
          (on_console_line-say J R text_of (c ∷ line) p₁ cs) (draining_after (c ∷ line) p₁ cs at)
          (λ q ds l. inner_loop-Said lines rest q ds l.1 (ap split l.0 ∙ parts)) in
      rw (loop_turn p cs (c ∷ line) r lines at found) (record { same_said = same; leaves = left })

  polling_turn :
      (chunk : List ℕ) (p : Process) (cs : List Call)
      → p.console_at ≡ polling
      → console_turn J R text_of (some chunk) p cs
        ≡ done tt (record p { buffer = p.buffer ++ c_string chunk; console_at = draining }) cs
  unfolding console_turn console_at_turn read_input modify
  polling_turn chunk p cs at = ap (λ a. console_at_turn J R text_of a (some chunk) p p cs) at

  -- One read, from `poll` on, in as many turns as the buffer and the chunk have lines and two more:
  -- but for the threads and the buffer, it does what giving each line that is not empty to the
  -- callback does, in the order of the lines, also where this throws; unless it throws, the thread
  -- is back at its test of g_appRunning, with the unfinished last line in the buffer.
  pub read_turns-say_all :
      (chunk : List ℕ) (p : Process) (cs : List Call)
      → p.console_at ≡ polling
      → let (lines, rest) = feed p.buffer chunk in
        let o = read_turns J R text_of chunk (split (p.buffer ++ c_string chunk)).0 p cs in
        (seen o ≡ say_all J R text_of lines (program_of p) cs)
        × Post (λ _ q _. Leaves rest testing q) (λ _ _. Unit {0}) o
  unfolding read_turns split_proper
  read_turns-say_all chunk p cs at =
      let text : List ℕ = p.buffer ++ c_string chunk in
      let p₁ : Process = record p { buffer = text; console_at = draining } in
      let said : Said (split text).0 (split text).1 p₁ cs
          (inner_loop J R text_of (split text).0 p₁ cs) =
        inner_loop-Said (split text).0 (split text).1 p₁ cs refl refl in
      rw
        (
          bind_done (console_turn J R text_of (some chunk))
              (λ _. inner_loop J R text_of (split text).0) p cs (polling_turn chunk p cs at),
          feed-split_proper p.buffer chunk,
        )
        (said.same_said, said.leaves)
