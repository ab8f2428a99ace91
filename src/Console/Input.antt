-- ===== src/Console/Input.antt =====
-- What startConsoleInputThread does with its buffer: bytes come in chunks, and lines are taken out of
-- it. A byte is a number.
use ant_media_server_confere.Base.{
  ℕ, zero, suc, Bool, true, false, Option, none, some, List, [], ◌∷◌, ◌++◌, if◌then◌else◌, ◌&&◌,
  ◌≡◌, refl,
}
use Prim.Native.Nat.{compare, Ordering}

infix 50 ◌=ℕ◌
abbrev pub ◌=ℕ◌ : ℕ → ℕ → Bool
a =ℕ b = elim (compare a b) [ Ordering.eq ↦ true | _ ↦ false ]

abbrev pub length : List ℕ → ℕ
length [] = 0
length (c ∷ l) = suc (length l)

-- `append(buf)` reads up to the first NUL.
unfoldable pub c_string : List ℕ → List ℕ
c_string [] = []
c_string (c ∷ l) = let rest = c_string l in if c =ℕ 0 then [] else c ∷ rest

-- `find('\n')`, `substr(0, pos)` and `erase(0, pos + 1)`: the first line and what follows it.
abbrev pub prepend : ℕ → Option (List ℕ × List ℕ) → Option (List ℕ × List ℕ)
prepend c none = none
prepend c (some (line, rest)) = some (c ∷ line, rest)

unfoldable pub take_line : List ℕ → Option (List ℕ × List ℕ)
take_line [] = none
take_line (c ∷ l) = let more = prepend c (take_line l) in if c =ℕ 10 then some ([], l) else more

-- `if (!line.empty()) onLine(line);` in front of the later lines.
abbrev pub keep : List ℕ → List (List ℕ) × List ℕ → List (List ℕ) × List ℕ
keep [] r = r
keep (c ∷ line) (lines, rest) = ((c ∷ line) ∷ lines, rest)

-- The inner loop: the lines that go to the callback, and the buffer that is left. A round takes at
-- least one byte out of the buffer.
unfoldable pub drain : ℕ → List ℕ → List (List ℕ) × List ℕ
drain zero buffer = ([], buffer)
drain (suc fuel) buffer = elim (take_line buffer) [
  | none ↦ ([], buffer)
  | some (line, rest) ↦ keep line (drain fuel rest)
]

-- One `read`.
unfoldable pub feed : List ℕ → List ℕ → List (List ℕ) × List ℕ
unfolding drain c_string
feed buffer chunk = let text = buffer ++ c_string chunk in drain (suc (length text)) text

unfoldable pub is_quit : List ℕ → Bool
is_quit (a ∷ b ∷ c ∷ d ∷ []) = a =ℕ b'q' && b =ℕ b'u' && c =ℕ b'i' && d =ℕ b't'
is_quit _ = false

two_chunks :
    feed (b'h' ∷ []) (b'i' ∷ 10 ∷ 10 ∷ b'y' ∷ 10 ∷ b'o' ∷ [])
    ≡ ((b'h' ∷ b'i' ∷ []) ∷ (b'y' ∷ []) ∷ [], b'o' ∷ [])
unfolding feed take_line
two_chunks = refl
