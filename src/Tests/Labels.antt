-- ===== src/Tests/Labels.antt =====
-- Two candidates, sent with a JSON library that writes any value as one text.
use mathlib.Core.Path.{refl}
use ant_media_server_confere.Base.{String, ◌≡◌, some, List, [], ◌∷◌}
use ant_media_server_confere.Base.Exec.{done}
use ant_media_server_confere.Platform.{JsonLib, Candidate}
use ant_media_server_confere.Protocol.Labels.{send_all, labelled, send_all-labelled}
use ant_media_server_confere.Tests.Platform.{toy, calm}
use ant_media_server_confere.Tests.Protocol.{client, early}

abbrev json : JsonLib
json = record (toy []) { dump = λ j. some "json" }

abbrev two : List (String × Candidate)
two = ("me", early) ∷ ("track", early) ∷ []

send_all-labelled_example :
    send_all json calm two client []
    ≡ done tt (record client { cand_label = 2 }) (labelled json (λ j. "json") 0 two [])
send_all-labelled_example =
    send_all-labelled json calm (λ j. "json") (λ s cs. refl) two client [] refl (refl, (refl, tt))
