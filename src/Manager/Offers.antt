-- ===== src/Manager/Offers.antt =====
-- What prepareRecvTracksFromSDP makes of the media sections of an offer.
pub mod Sections
use mathlib.Core.Path.{refl, subst}
use ant_media_server_confere.Base.{
  ℕ, String, ◌≡◌, ◌==◌, ◌∙◌, true, false, Option, none, some, List, [], ◌∷◌, if◌then◌else◌,
  Bool-cases, inl, inr,
}
use ant_media_server_confere.Base.Dict.{Dict, insert}
use ant_media_server_confere.Base.Exec.{
  Outcome, done, pure, try_pure, modify, call, call_done, observe, when, bind_done, ◌>>=◌, ◌>>◌,
}
use ant_media_server_confere.Platform.{JsonLib, Rtc, Call, MediaDescription, pc_add_track}
use ant_media_server_confere.Platform.Int.{ℤ, pos, negsuc}
use ant_media_server_confere.Gst.Pipelines.{count}
use ant_media_server_confere.Manager.State.{Manager, Method}
use ant_media_server_confere.Manager.Sdp.{
  wanted, codec_fits, recv_description, find_payload, payload_of, add_recv_track, prepare_media,
  prepare_all, prepare_recv_tracks_from_sdp,
}
use ant_media_server_confere.Manager.Offers.Sections.{
  Section, Kind, of_audio, of_video, kind_name, codec_name, track_for, kind_of, is_sending,
  first_named, not_below_0, track_of, accepted, onto, all_accepted, noted, added, with_tracks,
  fits_kind, described, KindOf, kind_of-KindOf,
}

module _ (J : JsonLib) where
  -- A list of JSON values reads as a list of codecs.
  abbrev pub CodecsRead : List J.Json → List (String × ℤ) → Type 0
  CodecsRead [] [] = Unit {0}
  CodecsRead (rtp ∷ rest) ((codec, payload) ∷ codecs) =
      (J.value rtp "codec" "" ≡ some codec)
      × (J.value_int rtp "payload" (negsuc 0) ≡ some payload)
      × CodecsRead rest codecs
  CodecsRead [] (_ ∷ _) = ⊥
  CodecsRead (_ ∷ _) [] = ⊥

  pub record SectionReads (media : J.Json) (s : Section) : Type 0 where
    pub type_reads : J.value media "type" "" ≡ some s.type
    pub direction_reads : J.value media "direction" "sendrecv" ≡ some s.direction
    pub with_rtp :
        J.contains media "rtp" ≡ true → CodecsRead (J.elements (J.at media "rtp")) s.codecs
    pub no_rtp : J.contains media "rtp" ≡ false → s.codecs ≡ []

  abbrev pub SectionsRead : List J.Json → List Section → Type 0
  SectionsRead [] [] = Unit {0}
  SectionsRead (media ∷ rest) (s ∷ sections) = SectionReads media s × SectionsRead rest sections
  SectionsRead [] (_ ∷ _) = ⊥
  SectionsRead (_ ∷ _) [] = ⊥

  find_payload-first_named :
      (kind : Kind) (list : List J.Json) (codecs : List (String × ℤ)) (m : Manager) (cs : List Call)
      → CodecsRead list codecs
      → find_payload J (kind_name kind) list m cs ≡ done (first_named (codec_name kind) codecs) m cs
  unfolding find_payload first_named try_pure pure ◌>>=◌
  find_payload-first_named kind [] [] m cs r = refl
  find_payload-first_named kind [] (_ ∷ _) m cs r = absurd r
  find_payload-first_named kind (_ ∷ _) [] m cs r = absurd r
  find_payload-first_named kind (rtp ∷ rest) ((codec, payload) ∷ codecs) m cs r =
      rw (r.0, r.1, fits_kind kind codec)
        (elim (Bool-cases (codec == codec_name kind)) [
          | inl fits ↦ rw fits refl
          | inr other ↦ rw other (find_payload-first_named kind rest codecs m cs r.2)
        ])

  payload_of-first_named :
      (kind : Kind) (media : J.Json) (s : Section) (m : Manager) (cs : List Call)
      → SectionReads media s
      → payload_of J (kind_name kind) media m cs
        ≡ done (first_named (codec_name kind) s.codecs) m cs
  unfolding payload_of first_named pure
  payload_of-first_named kind media s m cs r = elim (Bool-cases (J.contains media "rtp")) [
    | inl has ↦ simp has (
        find_payload-first_named kind (J.elements (J.at media "rtp")) s.codecs m cs
          (r.with_rtp has))
    | inr lacks ↦ simp (lacks, r.no_rtp lacks)
  ]

-- `addTrack` throws for no description.
abbrev pub AddsQuietly : Rtc → ℕ → Type 0
AddsQuietly R pc =
    (d : MediaDescription) (cs : List Call) → R.throws (pc_add_track pc d ∷ cs) ≡ false

module _ (J : JsonLib) (R : Rtc) (pc : ℕ) (quiet : AddsQuietly R pc) where
  add_recv_track-with_tracks :
      (kind : Kind) (payload : ℤ) (m : Manager) (cs : List Call)
      → add_recv_track J R pc (kind_name kind) payload m cs
        ≡ with_tracks R pc (onto (not_below_0 kind payload) []) m cs
  unfolding add_recv_track pure observe modify
  add_recv_track-with_tracks kind (negsuc n) m cs = refl
  add_recv_track-with_tracks kind (pos payload) m cs = rw⁻¹ (described kind payload) (
      bind_done (observe count) _ m cs refl
      ∙ bind_done (call R.throws (pc_add_track pc (recv_description (kind_name kind) payload))) _ m
          cs
          (call_done R.throws (pc_add_track pc (recv_description (kind_name kind) payload)) m cs
            (quiet _ cs)))

  -- What the body of the loop does once the type and the direction are read.
  abbrev taken : J.Json → String → String → Method
  taken media type direction =
      if wanted type direction
      then (payload_of J type media >>= λ payload. add_recv_track J R pc type payload)
      else pure tt

  taken-with_tracks :
      (o : Option Kind) (media : J.Json) (s : Section) (m : Manager) (cs : List Call)
      → SectionReads J media s
      → KindOf s.type s.direction o
      → taken media s.type s.direction m cs
        ≡ with_tracks R pc
            (onto (if is_sending s.direction then track_of o s.codecs else none) [])
            m
            cs
  unfolding pure
  taken-with_tracks none media s m cs r k = rw k (elim (Bool-cases (is_sending s.direction)) [
    | inl sends ↦ rw sends refl
    | inr keeps ↦ rw keeps refl
  ])
  taken-with_tracks (some kind) media s m cs r k =
      rw (k.1, k.0)
        (elim (Bool-cases (is_sending s.direction)) [
          | inr keeps ↦ rw keeps refl
          | inl sends ↦ rw sends (
              bind_done (payload_of J (kind_name kind) media) _ m cs
                (payload_of-first_named J kind media s m cs r)
              ∙ add_recv_track-with_tracks kind (first_named (codec_name kind) s.codecs) m cs)
        ])

  -- A section adds its track, or does nothing.
  prepare_media-with_tracks :
      (media : J.Json) (s : Section) (m : Manager) (cs : List Call)
      → SectionReads J media s
      → prepare_media J R pc media m cs ≡ with_tracks R pc (onto (accepted s) []) m cs
  unfolding prepare_media accepted try_pure
  prepare_media-with_tracks media s m cs r =
      bind_done (try_pure (J.value media "type" "")) _ m cs (read r.type_reads)
      ∙ bind_done (try_pure (J.value media "direction" "sendrecv")) _ m cs (read r.direction_reads)
      ∙ taken-with_tracks (kind_of s.type) media s m cs r (kind_of-KindOf s.type s.direction)
    where
      read : {o : Option String} {text : String} → o ≡ some text → try_pure o m cs ≡ done text m cs
      read e = rw e refl

  prepare_all-with_tracks :
      (list : List J.Json) (sections : List Section) (m : Manager) (cs : List Call)
      → SectionsRead J list sections
      → prepare_all J R pc list m cs ≡ with_tracks R pc (all_accepted sections) m cs
  unfolding prepare_all all_accepted pure ◌>>=◌
  prepare_all-with_tracks [] [] m cs r = refl
  prepare_all-with_tracks [] (_ ∷ _) m cs r = absurd r
  prepare_all-with_tracks (_ ∷ _) [] m cs r = absurd r
  prepare_all-with_tracks (media ∷ rest) (s ∷ sections) m cs r =
      go (accepted s) (prepare_media-with_tracks media s m cs r.0)
        (λ n ds. prepare_all-with_tracks rest sections n ds r.1)
    where
      go :
          (o : Option (Kind × ℕ))
          → prepare_media J R pc media m cs ≡ with_tracks R pc (onto o []) m cs
          → ((n : Manager) (ds : List Call)
              → prepare_all J R pc rest n ds ≡ with_tracks R pc (all_accepted sections) n ds)
          → (prepare_media J R pc media >> prepare_all J R pc rest) m cs
            ≡ with_tracks R pc (onto o (all_accepted sections)) m cs
      go none e later = bind_done (prepare_media J R pc media) _ m cs e ∙ later m cs
      go (some (kind, payload)) e later =
          bind_done (prepare_media J R pc media) _ m cs e ∙ later _ _

  -- An offer that is read as media sections, with an addTrack that does not throw: each section of
  -- a peer that sends audio or video, with a payload that is not below 0 at the first codec that
  -- fits (H264 for video, opus for audio), gives one receiving track, in the order of the sections,
  -- and the mid of the track is noted with the type of the section. No other section gives a track.
  pub prepare_recv_tracks_from_sdp-with_tracks :
      (sdp : String) (json : J.Json) (sections : List Section) (m : Manager) (cs : List Call)
      → J.sdp_parse sdp ≡ some json
      → J.contains json "media" ≡ true
      → SectionsRead J (J.elements (J.at json "media")) sections
      → prepare_recv_tracks_from_sdp J R pc sdp m cs ≡ with_tracks R pc (all_accepted sections) m cs
  unfolding prepare_recv_tracks_from_sdp when try_pure ◌>>=◌
  prepare_recv_tracks_from_sdp-with_tracks sdp json sections m cs parsed media r =
      simp (parsed, media)
        (prepare_all-with_tracks (J.elements (J.at json "media")) sections m cs r)
