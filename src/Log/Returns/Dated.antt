-- ===== src/Log/Returns/Dated.antt =====
-- The line that DBGLogAndPublish appends and the folder of its file, byte by byte.
use mathlib.Core.Path.{subst}
use ant_media_server_confere.Base.{
  ℕ, zero, suc, ◌+◌, ◌/◌, ◌%◌, ◌<◌, ◌≤◌, ◌≡◌, true, sym, ◌∙◌, Bool-cases, inl, inr, false, some,
  List, [], ◌∷◌, ◌++◌, arith,
}
use ant_media_server_confere.Base.Exec.{Outcome, done}
use ant_media_server_confere.Platform.Int.{ℤ, below}
use ant_media_server_confere.Log.Bytes.{Bytes, bytes, length, digits, number, two_digits}
use ant_media_server_confere.Log.System.{
  SysCall, sys_access, sys_stderr, sys_time, sys_lock, Clock, Os, LogState,
}
use ant_media_server_confere.Log.Publish.{
  log_payload, day_name, day_folder, mkdirs, dbg_log_and_publish,
}
use ant_media_server_confere.Log.Publish.Bounds.{length-append, printed_all, day_folder-fits}
use ant_media_server_confere.Log.Publish.Folders.{MakesFolders, mkdirs-Makes}
use ant_media_server_confere.Log.Returns.Publish.{
  now, taken, Appended, Published, dbg_log_and_publish-Published,
}

-- What gmtime_r and gettimeofday give; a second may be a leap second.
pub record InRange (c : Clock) : Type 0 where
  pub hour_lt : c.hour < 24
  pub minute_lt : c.minute < 60
  pub second_lt : c.second < 61
  pub micros_lt : c.micros < 1000000

-- "[hh:mm:ss.mmm]<>", with the milliseconds not padded.
abbrev pub time_text : Clock → Bytes
time_text c =
    bytes "["
    ++ two_digits c.hour
    ++ bytes ":"
    ++ two_digits c.minute
    ++ bytes ":"
    ++ two_digits c.second
    ++ bytes "."
    ++ number (c.micros / 1000)
    ++ bytes "]<>"

abbrev pub day_of : Clock → Bytes
day_of c = number c.year ++ bytes "-" ++ two_digits c.month ++ bytes "-" ++ two_digits c.day

-- The folder of the day under the path.
abbrev pub folder_of : Bytes → Clock → Bytes
folder_of path c = path ++ bytes "/" ++ bytes "/APLog/" ++ bytes "/" ++ day_of c ++ bytes "/"

length-digits : (fuel n : ℕ) (rest : Bytes) → length (digits fuel n rest) ≤ fuel + length rest
unfolding digits
length-digits zero n rest = omega arith
length-digits (suc fuel) n rest = elim (Bool-cases (below n 10)) [
  | inl small ↦ rw small (omega arith)
  | inr large ↦ rw large (omega (arith, length-digits fuel (n / 10) ((b'0' + n % 10) ∷ rest)))
]

length-number : (n : ℕ) → length (number n) ≤ suc n
unfolding number
length-number n = omega (arith, length-digits (suc n) n [])

length-two_digits : (n : ℕ) → length (two_digits n) ≤ suc (suc n)
unfolding two_digits
length-two_digits n = elim (Bool-cases (below n 10)) [
  | inl small ↦ rw small (omega (arith, length-number n))
  | inr large ↦ rw large (omega (arith, length-number n))
]

log_payload_lem : (c : Clock) → InRange c → log_payload c ≡ time_text c
unfolding log_payload
log_payload_lem c range =
    let h : Bytes = two_digits c.hour in
    let m : Bytes = two_digits c.minute in
    let s : Bytes = two_digits c.second in
    let ms : Bytes = number (c.micros / 1000) in
    let p1 : Bytes = bytes "[" ++ h in
    let p2 : Bytes = p1 ++ bytes ":" ++ m in
    let p3 : Bytes = p2 ++ bytes ":" ++ s in
    let p4 : Bytes = p3 ++ bytes "." ++ ms in
    let a1 : length p1 < 28 =
      omega (arith, length-append (bytes "[") h, length-two_digits c.hour, range.hour_lt) in
    let a2 : length p2 < 100 = omega (
      arith,
      a1,
      length-append p1 (bytes ":"),
      length-append (p1 ++ bytes ":") m,
      length-two_digits c.minute,
      range.minute_lt,
    ) in
    let a3 : length p3 < 200 = omega (
      arith,
      a2,
      length-append p2 (bytes ":"),
      length-append (p2 ++ bytes ":") s,
      length-two_digits c.second,
      range.second_lt,
    ) in
    let a4 : length p4 < 1300 = omega (
      arith,
      a3,
      length-append p3 (bytes "."),
      length-append (p3 ++ bytes ".") ms,
      length-number (c.micros / 1000),
      range.micros_lt,
    ) in
    printed_all 4096 (time_text c) (omega (arith, a4, length-append p4 (bytes "]<>")))

day_folder_lem :
    (path : Bytes) (c : Clock)
    → length path + length (day_of c) ≤ 245
    → day_folder path c ≡ folder_of path c
unfolding day_name
day_folder_lem path c h = day_folder-fits path c h

-- The folder is there after the calls of mkdirs, and then the line is in the file, or the file cannot be
-- opened.
abbrev pub Dated :
    Os → Bytes → Bytes → Bytes → LogState → List SysCall → Outcome LogState SysCall ℤ → Type 0
Dated os line folder filename s cs o =
    (es : List SysCall) × ((mkdirs os folder (taken s) (sys_stderr line ∷ sys_time ∷ sys_lock ∷ cs)
        ≡ done tt (taken s) es)
      × ((os.access (sys_access folder ∷ es) ≡ true)
          × Appended os (folder ++ filename) line s es o))

module _ (os : Os) (works : MakesFolders os) where
  same_calls :
      (s : LogState) (es ds : List SysCall)
      → ◌≡◌ {A = Outcome LogState SysCall (Unit {0})} (done tt s ds) (done tt s es)
      → ds ≡ es
  same_calls s es ds e = cc

  Published-Dated :
      (line path filename : Bytes) (clock : Clock) (s : LogState) (cs : List SysCall)
      → (o : Outcome LogState SysCall ℤ) → Published os line (b'/' ∷ path) filename clock s cs o
      → day_folder (b'/' ∷ path) clock ≡ folder_of (b'/' ∷ path) clock
      → Dated os line (folder_of (b'/' ∷ path) clock) filename s cs o
  Published-Dated line path filename clock s cs o (es, (e, appended)) f =
      let before : List SysCall = sys_stderr line ∷ sys_time ∷ sys_lock ∷ cs in
      let e : mkdirs os (folder_of (b'/' ∷ path) clock) (taken s) before ≡ done tt (taken s) es =
        subst (λ p. mkdirs os p (taken s) before ≡ done tt (taken s) es) f e in
      let (ds, (g, there)) = mkdirs-Makes os works (folder_of path clock) (taken s) before in
      let ds-es : ds ≡ es = same_calls (taken s) es ds (sym g ∙ e) in
      (
        es,
        (
          e,
          (
            subst (λ xs. os.access (sys_access (folder_of (b'/' ∷ path) clock) ∷ xs) ≡ true) ds-es
                there,
            subst (λ p. Appended os (p ++ filename) line s es o) f appended,
          ),
        ),
      )

  -- On a file system on which mkdir makes a folder if the one above it is there, and a folder stays
  -- there when access is called, with the log lock free, a path that starts with a slash and is,
  -- with the date, at most 245 bytes long, and a time of day in range: DBGLogAndPublish writes
  -- "[hh:mm:ss.m]<>" (m the milliseconds, not padded) and the line to stderr, and with its calls of
  -- mkdirs the folder of the day under the path is there. Then it either appends the same bytes to the
  -- file in this folder and returns 0, or cannot open it and returns -2. It gives the lock back on
  -- both ways.
  pub dbg_log_and_publish-Dated :
      (dbg_str path filename : Bytes) (s : LogState) (cs : List SysCall)
      → s.locked ≡ false
      → InRange (now os cs)
      → length (b'/' ∷ path) + length (day_of (now os cs)) ≤ 245
      → Dated os
          (time_text (now os cs) ++ dbg_str)
          (folder_of (b'/' ∷ path) (now os cs))
          filename
          s
          cs
          (dbg_log_and_publish os (some dbg_str) (b'/' ∷ path) filename s cs)
  dbg_log_and_publish-Dated dbg_str path filename s cs unlocked range fits =
      let o : Outcome LogState SysCall ℤ =
        dbg_log_and_publish os (some dbg_str) (b'/' ∷ path) filename s cs in
      Published-Dated (time_text (now os cs) ++ dbg_str) path filename (now os cs) s cs o
        (subst (λ t. Published os (t ++ dbg_str) (b'/' ∷ path) filename (now os cs) s cs o)
          (log_payload_lem (now os cs) range)
          (dbg_log_and_publish-Published os dbg_str (b'/' ∷ path) filename s cs unlocked))
        (day_folder_lem (b'/' ∷ path) (now os cs) fits)
