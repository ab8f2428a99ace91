-- ===== src/Tests/Offers.antt =====
-- An offer with one media section, for H264 video with the payload 96.
use mathlib.Core.Path.{refl}
use ant_media_server_confere.Base.{none, ◌==◌, string_dec, ◌≡◌, arith, true, false, some, [], ◌∷◌}
use ant_media_server_confere.Base.Dict.{lookup, insert}
use ant_media_server_confere.Base.Exec.{done}
use ant_media_server_confere.Platform.{
  JsonLib, offer, answer, pc_set_local_description, pc_set_remote_description,
}
use ant_media_server_confere.Platform.Int.{pos}
use ant_media_server_confere.Manager.State.{create}
use ant_media_server_confere.Manager.Sdp.{handle_remote_sdp, prepare_recv_tracks_from_sdp}
use ant_media_server_confere.Manager.Offers.Sections.{
  Section, of_video, kind_of, is_sending, first_named, all_accepted, noted, added, with_tracks,
}
use ant_media_server_confere.Manager.Offers.{
  SectionReads, AddsQuietly, prepare_recv_tracks_from_sdp-with_tracks,
}
use ant_media_server_confere.Manager.Candidates.{created}
use ant_media_server_confere.Manager.Answers.{
  handed_waiting, without_waiting, handle_remote_sdp_answers,
}
use ant_media_server_confere.Tests.Platform.{Json, members, nothing, number, text, toy, calm}

-- One object stands for the description, its section and its codec.
abbrev section : Json
section = members (
    ("media", nothing)
    ∷ ("type", text "video")
    ∷ ("direction", text "sendonly")
    ∷ ("rtp", nothing)
    ∷ ("codec", text "H264")
    ∷ ("payload", number (pos 96))
    ∷ [])

abbrev offers : JsonLib
offers = record (toy []) { sdp_parse = λ s. some section; at = λ j k. j; elements = λ j. j ∷ [] }

abbrev video_section : Section
video_section = record { type = "video"; direction = "sendonly"; codecs = ("H264", pos 96) ∷ [] }

video_section-SectionReads : SectionReads offers section video_section
unfolding lookup string_dec
video_section-SectionReads = record {
  type_reads = refl;
  direction_reads = refl;
  with_rtp = λ _. (refl, refl, tt);
  no_rtp = λ e. absurd (ground (arith, e));
}

one_track : all_accepted (video_section ∷ []) ≡ (of_video, 96) ∷ []
unfolding all_accepted kind_of is_sending first_named string_dec
one_track = refl

calm-AddsQuietly : AddsQuietly calm 5
calm-AddsQuietly d cs = refl

offers_media : offers.contains section "media" ≡ true
unfolding lookup string_dec
offers_media = refl

prepare_recv_tracks_from_sdp-with_tracks_example :
    prepare_recv_tracks_from_sdp offers calm 5 "v=0" create []
    ≡ with_tracks calm 5 (all_accepted (video_section ∷ [])) create []
prepare_recv_tracks_from_sdp-with_tracks_example =
    prepare_recv_tracks_from_sdp-with_tracks offers calm 5 calm-AddsQuietly "v=0" section
      (video_section ∷ []) create [] refl offers_media (video_section-SectionReads, tt)

new_stream : lookup "track" create.pcs ≡ none
unfolding lookup create
new_stream = refl

none_wait : lookup "track" create.pending_candidates ≡ none
unfolding lookup create
none_wait = refl

handle_remote_sdp_answers_example :
    let cs₁ = created 0 "track" ("track" == create.room_id) [] in
    handle_remote_sdp offers calm "track" "offer" "v=0" create []
    ≡ done tt
        (record create {
          pcs = insert "track" 0 create.pcs;
          is_publisher = insert "track" false create.is_publisher;
          mid_type_map = noted calm 0 (all_accepted (video_section ∷ [])) create.mid_type_map cs₁;
          pending_candidates = without_waiting "track" none create.pending_candidates;
        })
        (pc_set_local_description 0 answer
          ∷ handed_waiting 0 none (
              pc_set_remote_description 0 offer "v=0"
              ∷ added 0 (all_accepted (video_section ∷ [])) cs₁))
handle_remote_sdp_answers_example =
    handle_remote_sdp_answers offers calm (λ ds. refl) "track" "v=0" section (video_section ∷ [])
      none create [] new_stream none_wait refl offers_media (video_section-SectionReads, tt)
