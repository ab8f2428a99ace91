-- ===== src/Console/Lines.antt =====
-- The lines do not depend on how the input is cut into chunks.
use mathlib.Core.Path.{refl}
use mathlib.Core.List.{append_assoc}
use ant_media_server_confere.Base.{
  ℕ, zero, suc, ◌<◌, ◌≡◌, sym, ap, ◌∙◌, Bool, true, false, Option, none, some, List, [], ◌∷◌, ◌++◌,
  arith, if◌then◌else◌,
}
use ant_media_server_confere.Console.Input.{
  ◌=ℕ◌, length, c_string, prepend, take_line, keep, drain, feed,
}

-- The lines of a text and its unfinished last line, by recursion over the bytes.
abbrev onto : ℕ → List (List ℕ) × List ℕ → List (List ℕ) × List ℕ
onto c ([], rest) = ([], c ∷ rest)
onto c (line ∷ lines, rest) = ((c ∷ line) ∷ lines, rest)

unfoldable pub split : List ℕ → List (List ℕ) × List ℕ
split [] = ([], [])
split (c ∷ l) =
    let (lines, rest) = split l in if c =ℕ 10 then ([] ∷ lines, rest) else onto c (lines, rest)

-- The lines that are not empty.
unfoldable pub proper : List (List ℕ) → List (List ℕ)
proper [] = []
proper ([] ∷ lines) = proper lines
proper ((c ∷ line) ∷ lines) = (c ∷ line) ∷ proper lines

unfoldable pub split_proper : List ℕ → List (List ℕ) × List ℕ
split_proper text = let (lines, rest) = split text in (proper lines, rest)

-- What is left after a line is shorter than the text.
abbrev pub Shorter : List ℕ → Option (List ℕ × List ℕ) → Type 0
Shorter l none = Unit
Shorter l (some (line, rest)) = length rest < length l

-- One round of `find`, `substr` and `erase` is one step of the split.
abbrev pub one_step : List ℕ → Option (List ℕ × List ℕ) → List (List ℕ) × List ℕ
one_step l none = ([], l)
one_step l (some (line, rest)) = (line ∷ (split rest).0, (split rest).1)

pub take_line-Shorter : (l : List ℕ) → Shorter l (take_line l)
unfolding take_line
take_line-Shorter [] = tt
take_line-Shorter (c ∷ l) = cons (c =ℕ 10) (take_line l) (take_line-Shorter l)
  where
    cons :
        (b : Bool) (o : Option (List ℕ × List ℕ))
        → Shorter l o
        → Shorter (c ∷ l) (if b then some ([], l) else prepend c o)
    cons true o h = omega arith
    cons false none h = tt
    cons false (some (line, rest)) h = omega arith

pub split-take_line : (l : List ℕ) → split l ≡ one_step l (take_line l)
unfolding split take_line
split-take_line [] = refl
split-take_line (c ∷ l) = cons (c =ℕ 10) (take_line l) (split-take_line l)
  where
    cons :
        (b : Bool) (o : Option (List ℕ × List ℕ))
        → split l ≡ one_step l o
        → (if b then ([] ∷ (split l).0, (split l).1) else onto c (split l))
          ≡ one_step (c ∷ l) (if b then some ([], l) else prepend c o)
    cons true o h = refl
    cons false none h = rw h refl
    cons false (some (line, rest)) h = rw h refl

keep-proper :
    (line : List ℕ) (lines : List (List ℕ)) (rest : List ℕ)
    → keep line (proper lines, rest) ≡ (proper (line ∷ lines), rest)
unfolding proper
keep-proper [] lines rest = refl
keep-proper (c ∷ line) lines rest = refl

drain_split : (fuel : ℕ) (text : List ℕ) → length text < fuel → drain fuel text ≡ split_proper text
unfolding drain split_proper proper
drain_split zero text h = absurd (omega arith)
drain_split (suc fuel) text h =
    rw (split-take_line text)
      (rounds (take_line text) (take_line-Shorter text) (λ rest. drain_split fuel rest))
  where
    rounds :
        (o : Option (List ℕ × List ℕ))
        → Shorter text o
        → ((rest : List ℕ) → length rest < fuel → drain fuel rest ≡ split_proper rest)
        → ◌≡◌ {A = List (List ℕ) × List ℕ}
            (elim o [ none ↦ ([], text) | some (line, rest) ↦ keep line (drain fuel rest) ])
            (proper (one_step text o).0, (one_step text o).1)
    rounds none s later = refl
    rounds (some (line, rest)) s later =
        ap (keep line) (later rest (omega arith)) ∙ keep-proper line (split rest).0 (split rest).1

proper-append : (a b : List (List ℕ)) → proper (a ++ b) ≡ proper a ++ proper b
unfolding proper
proper-append [] b = refl
proper-append ([] ∷ a) b = proper-append a b
proper-append ((c ∷ line) ∷ a) b = ap (λ x. (c ∷ line) ∷ x) (proper-append a b)

-- The split of a text that comes in two parts.
split-append :
    (a b : List ℕ)
    → split (a ++ b) ≡ ((split a).0 ++ (split ((split a).1 ++ b)).0, (split ((split a).1 ++ b)).1)
unfolding split
split-append [] b = refl
split-append (c ∷ a) b = cons (c =ℕ 10) (split a) refl (split-append a b)
  where
    glue : Bool → List (List ℕ) × List ℕ → List (List ℕ) × List ℕ
    glue found (lines, rest) = if found then ([] ∷ lines, rest) else onto c (lines, rest)

    cons :
        (found : Bool) (r : List (List ℕ) × List ℕ)
        → found ≡ (c =ℕ 10)
        → split (a ++ b) ≡ (r.0 ++ (split (r.1 ++ b)).0, (split (r.1 ++ b)).1)
        → glue found (split (a ++ b)) ≡ (
          (glue found r).0 ++ (split ((glue found r).1 ++ b)).0,
          (split ((glue found r).1 ++ b)).1,
        )
    cons true r e h = rw h refl
    cons false ([], rest) e h = rw h (rw (sym e) refl)
    cons false (line ∷ lines, rest) e h = rw h refl

-- A chunk without the byte 0 is taken whole.
abbrev pub NoNul : List ℕ → Type 0
NoNul text = c_string text ≡ text

NoNul-append : (a b : List ℕ) → NoNul a → NoNul b → NoNul (a ++ b)
unfolding c_string
NoNul-append [] b plain_a plain_b = plain_b
NoNul-append (c ∷ a) b plain_a plain_b = ground (arith, NoNul-append a b)

pub feed-split_proper :
    (buffer chunk : List ℕ) → feed buffer chunk ≡ split_proper (buffer ++ c_string chunk)
unfolding feed
feed-split_proper buffer chunk =
    drain_split (suc (length (buffer ++ c_string chunk))) (buffer ++ c_string chunk) (omega arith)

-- A read of a chunk without the byte 0 gives the lines of the buffer and the chunk, without the
-- empty ones, and leaves the unfinished last line in the buffer: no line is lost, split or joined
-- to another.
pub feed_lem :
    (buffer chunk : List ℕ) → NoNul chunk → feed buffer chunk ≡ split_proper (buffer ++ chunk)
feed_lem buffer chunk plain =
    feed-split_proper buffer chunk ∙ ap (λ text. split_proper (buffer ++ text)) plain

-- The lines do not depend on where the input is cut: two chunks without the byte 0, read one after
-- the other, give the lines and the rest of the two read as one.
pub feed-append :
    (buffer a b : List ℕ)
    → NoNul a
    → NoNul b
    → let first = feed buffer a in
      let second = feed first.1 b in feed buffer (a ++ b) ≡ (first.0 ++ second.0, second.1)
unfolding split_proper
feed-append buffer a b plain_a plain_b =
    rw
      (
        feed_lem buffer a plain_a,
        feed_lem _ b plain_b,
        feed_lem buffer (a ++ b) (NoNul-append a b plain_a plain_b),
        sym (append_assoc buffer a b),
      )
      (rw (split-append (buffer ++ a) b) (rw (proper-append (split (buffer ++ a)).0 _) refl))
