-- ===== src/Log/Publish/Bounds.antt =====
-- What fits into the buffers: the block that DBG allocates and the path of the folder of the day.
use mathlib.Core.Path.{refl}
use ant_media_server_confere.Base.{ℕ, zero, suc, ◌+◌, ◌-◌, ◌<◌, ◌≤◌, ◌≡◌, ap, [], ◌∷◌, ◌++◌, arith}
use ant_media_server_confere.Log.Bytes.{Bytes, bytes, length, take, printed}
use ant_media_server_confere.Log.System.{Clock}
use ant_media_server_confere.Log.Publish.{
  day_name, day_folder, position, payload_size, total_size, dbg_text,
}

pub length-append : (s t : Bytes) → length (s ++ t) ≡ length s + length t
length-append [] t = omega arith
length-append (c ∷ s) t = omega (arith, length-append s t)

take_all : (n : ℕ) (s : Bytes) → length s ≤ n → take n s ≡ s
take_all zero [] h = refl
take_all zero (c ∷ s) h = absurd (omega arith)
take_all (suc n) [] h = refl
take_all (suc n) (c ∷ s) h = ap (λ t. c ∷ t) (take_all n s (omega arith))

pub printed_all : (size : ℕ) (s : Bytes) → length s < size → printed size s ≡ s
printed_all size s h = take_all (size - 1) s (omega arith)

-- DBG cuts nothing off: what it leaves in its block is the position and then the text, and it fits,
-- with the 0 at the end.
pub dbg_text-fits :
    (file : Bytes) (line : ℕ) (function text : Bytes)
    → (dbg_text file line function text ≡ position file line function ++ text)
      × (length (dbg_text file line function text) < total_size file line function text)
unfolding dbg_text
dbg_text-fits file line function text =
    let p : Bytes = position file line function in
    let start : printed (payload_size file line function) p ≡ p =
      printed_all (payload_size file line function) p
        (omega (arith, length-append p (bytes ": "))) in
    let end : printed (1 + length text) text ≡ text =
      printed_all (1 + length text) text (omega arith) in
    rw (start, end) (refl, omega (arith, length-append p text, length-append p (bytes ": ")))

abbrev front : Bytes → Bytes
front path = path ++ bytes "/" ++ bytes "/APLog/" ++ bytes "/"

-- The path of the folder of the day is whole if the path in front and the date are together at most
-- 245 bytes long.
pub day_folder-fits :
    (path : Bytes) (clock : Clock)
    → length path + length (day_name clock) ≤ 245
    → day_folder path clock
      ≡ path ++ bytes "/" ++ bytes "/APLog/" ++ bytes "/" ++ day_name clock ++ bytes "/"
unfolding day_folder
day_folder-fits path clock h =
    printed_all 256
      (path ++ bytes "/" ++ bytes "/APLog/" ++ bytes "/" ++ day_name clock ++ bytes "/")
      (omega (
        arith,
        length-append (front path ++ day_name clock) (bytes "/"),
        length-append (front path) (day_name clock),
        length-append (path ++ bytes "/" ++ bytes "/APLog/") (bytes "/"),
        length-append (path ++ bytes "/") (bytes "/APLog/"),
        length-append path (bytes "/"),
      ))
