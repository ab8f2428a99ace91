-- ===== src/Manager/Offers/Sections.antt =====
-- The media sections of an offer and the tracks that receive them, in words of their own.
use mathlib.Core.Path.{refl, subst}
use mathlib.Core.Logic.{ite}
use ant_media_server_confere.Base.{
  ℕ, String, ◌≡◌, sym, Bool, true, false, Option, none, some, List, [], ◌∷◌, ◌==◌, ◌<>◌, arith,
  string_dec, if◌then◌else◌, Bool-cases, inl, inr,
}
use ant_media_server_confere.Base.Decimal.{to_string}
use ant_media_server_confere.Base.Dict.{Dict, insert}
use ant_media_server_confere.Base.Exec.{Outcome, done}
use ant_media_server_confere.Platform.{
  Rtc, Call, MediaDescription, audio, video, recv_only, pc_add_track,
}
use ant_media_server_confere.Platform.Int.{ℤ, pos, negsuc}
use ant_media_server_confere.Gst.Pipelines.{count}
use ant_media_server_confere.Manager.State.{Manager}
use ant_media_server_confere.Manager.Sdp.{wanted, codec_fits, recv_description}

-- A media section: its type, its direction, and its codecs with their payload numbers.
pub record Section : Type 0 where
  pub type : String
  pub direction : String
  pub codecs : List (String × ℤ)

-- What a receiving track is for.
pub data Kind : Type 0 where
  of_audio of_video : Kind

abbrev pub kind_name : Kind → String
kind_name of_audio = "audio"
kind_name of_video = "video"

abbrev pub codec_name : Kind → String
codec_name of_audio = "opus"
codec_name of_video = "H264"

-- The track: for receiving, with the payload both as its codec's and in its name.
abbrev pub track_for : Kind → ℕ → MediaDescription
track_for of_audio payload = record {
  media = audio;
  name = "remote-" <> "audio" <> "-" <> to_string payload;
  direction = recv_only;
  payload_type = payload;
  ssrc = none;
}
track_for of_video payload = record {
  media = video;
  name = "remote-" <> "video" <> "-" <> to_string payload;
  direction = recv_only;
  payload_type = payload;
  ssrc = none;
}

-- The media types that are taken; the peer sends in these directions.
unfoldable pub kind_of : String → Option Kind
kind_of type =
    if type == "audio" then some of_audio else if type == "video" then some of_video else none

unfoldable pub is_sending : String → Bool
is_sending direction = if direction == "sendonly" then true else direction == "sendrecv"

-- The payload of the first codec of this name, and -1 if there is none.
unfoldable pub first_named : String → List (String × ℤ) → ℤ
first_named name [] = negsuc 0
first_named name ((codec, payload) ∷ codecs) =
    let later = first_named name codecs in if codec == name then payload else later

abbrev pub not_below_0 : Kind → ℤ → Option (Kind × ℕ)
not_below_0 kind (pos payload) = some (kind, payload)
not_below_0 kind (negsuc n) = none

abbrev pub track_of : Option Kind → List (String × ℤ) → Option (Kind × ℕ)
track_of none codecs = none
track_of (some kind) codecs = not_below_0 kind (first_named (codec_name kind) codecs)

-- The kind and the payload of the track for a section, if it gets one.
unfoldable pub accepted : Section → Option (Kind × ℕ)
unfolding kind_of is_sending first_named
accepted s = if is_sending s.direction then track_of (kind_of s.type) s.codecs else none

abbrev pub onto : Option (Kind × ℕ) → List (Kind × ℕ) → List (Kind × ℕ)
onto none tracks = tracks
onto (some track) tracks = track ∷ tracks

unfoldable pub all_accepted : List Section → List (Kind × ℕ)
unfolding accepted
all_accepted [] = []
all_accepted (s ∷ sections) = onto (accepted s) (all_accepted sections)

-- The map of mids and the calls after the tracks are added in this order. The mid of a track is the
-- library's.
abbrev pub noted : Rtc → ℕ → List (Kind × ℕ) → Dict String → List Call → Dict String
noted R pc [] d cs = d
noted R pc ((kind, payload) ∷ tracks) d cs =
    noted R pc tracks (insert (R.track_mid (count cs)) (kind_name kind) d)
      (pc_add_track pc (track_for kind payload) ∷ cs)

abbrev pub added : ℕ → List (Kind × ℕ) → List Call → List Call
added pc [] cs = cs
added pc ((kind, payload) ∷ tracks) cs =
    added pc tracks (pc_add_track pc (track_for kind payload) ∷ cs)

abbrev pub with_tracks :
    Rtc → ℕ → List (Kind × ℕ) → Manager → List Call → Outcome Manager Call (Unit {0})
with_tracks R pc tracks m cs =
    done tt (record m { mid_type_map = noted R pc tracks m.mid_type_map cs }) (added pc tracks cs)

-- The tests of the code against this description.
pub fits_kind :
    (k : Kind) (codec : String) → codec_fits (kind_name k) codec ≡ (codec == codec_name k)
unfolding codec_fits string_dec
fits_kind of_audio codec = refl
fits_kind of_video codec = ground arith

pub described :
    (k : Kind) (payload : ℕ) → recv_description (kind_name k) payload ≡ track_for k payload
unfolding recv_description string_dec
described of_audio payload = refl
described of_video payload = refl

-- A type is that of a kind, or the section is not wanted.
abbrev pub KindOf : String → String → Option Kind → Type 0
KindOf type direction none = wanted type direction ≡ false
KindOf type direction (some k) =
    (type ≡ kind_name k) × (wanted type direction ≡ is_sending direction)

equal : (s t : String) → (s == t) ≡ true → s ≡ t
equal s t e = go (string_dec s t) e
  where
    go : (d : Dec (s ≡ t)) → ite d true false ≡ true → s ≡ t
    go (yes p) e = p
    go (no n) e = absurd (ground (arith, e))

audio-KindOf : (direction : String) → KindOf "audio" direction (kind_of "audio")
unfolding kind_of wanted is_sending string_dec
audio-KindOf direction = (refl, ground arith)

video-KindOf : (direction : String) → KindOf "video" direction (kind_of "video")
unfolding kind_of wanted is_sending string_dec
video-KindOf direction = (refl, ground arith)

pub kind_of-KindOf : (type direction : String) → KindOf type direction (kind_of type)
unfolding kind_of wanted
kind_of-KindOf type direction = elim (Bool-cases (type == "audio")) [
  | inl is_audio ↦
      subst (λ t. KindOf t direction (kind_of t)) (sym (equal type "audio" is_audio))
        (audio-KindOf direction)
  | inr no_audio ↦ elim (Bool-cases (type == "video")) [
    | inl is_video ↦
        subst (λ t. KindOf t direction (kind_of t)) (sym (equal type "video" is_video))
          (video-KindOf direction)
    | inr no_video ↦ rw (no_audio, no_video) (ground (arith, no_audio, no_video))
  ]
]
