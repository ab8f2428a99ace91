-- ===== src/Tests/Console.antt =====
-- Chunks of console input.
use mathlib.Core.Path.{refl}
use ant_media_server_confere.Base.{ℕ, ◌≡◌, List, [], ◌∷◌, ◌++◌}
use ant_media_server_confere.Console.Input.{c_string, feed}
use ant_media_server_confere.Console.Lines.{NoNul, split_proper, feed_lem, feed-append}

-- "hi", and a line end with "yo".
abbrev greeting : List ℕ
greeting = b'h' ∷ b'i' ∷ []

abbrev reply : List ℕ
reply = 10 ∷ b'y' ∷ b'o' ∷ []

greeting-NoNul : NoNul greeting
unfolding c_string
greeting-NoNul = refl

reply-NoNul : NoNul reply
unfolding c_string
reply-NoNul = refl

feed-append_example :
    let first = feed [] greeting in
    let second = feed first.1 reply in feed [] (greeting ++ reply) ≡ (first.0 ++ second.0, second.1)
feed-append_example = feed-append [] greeting reply greeting-NoNul reply-NoNul

feed_lem_example : feed greeting reply ≡ split_proper (greeting ++ reply)
feed_lem_example = feed_lem greeting reply reply-NoNul
