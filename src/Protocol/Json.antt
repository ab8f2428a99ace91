-- ===== src/Protocol/Json.antt =====
-- What the program relies on of nlohmann::json, as its documentation states it: the members of an
-- object are found by their keys, a missing key gives the default, and a text that `dump` wrote is
-- parsed to the same value.
use ant_media_server_confere.Base.{String, ◌≡◌, none, some, List}
use ant_media_server_confere.Base.Dict.{contains, lookup, insert}
use ant_media_server_confere.Platform.Int.{ℤ}
use ant_media_server_confere.Platform.{JsonLib}

pub record IsLawful (J : JsonLib) : Type 0 where
  pub contains-object :
      (k : String) (fs : List (String × J.Json)) → J.contains (J.object fs) k ≡ contains k fs
  pub value-object :
      (k d s : String) (fs : List (String × J.Json))
      → lookup k fs ≡ some (J.string s)
      → J.value (J.object fs) k d ≡ some s
  pub value_missing :
      (k d : String) (fs : List (String × J.Json))
      → lookup k fs ≡ none
      → J.value (J.object fs) k d ≡ some d
  pub value_int-object :
      (k : String) (d n : ℤ) (fs : List (String × J.Json))
      → lookup k fs ≡ some (J.integer n)
      → J.value_int (J.object fs) k d ≡ some n
  pub get_string-object :
      (k s : String) (fs : List (String × J.Json))
      → lookup k fs ≡ some (J.string s)
      → J.get_string (J.object fs) k ≡ some s
  pub set_member-object :
      (k : String) (v : J.Json) (fs : List (String × J.Json))
      → J.set_member (J.object fs) k v ≡ J.object (insert k v fs)
  pub parse-dump :
      (fs : List (String × J.Json)) (text : String)
      → J.dump (J.object fs) ≡ some text
      → J.parse text ≡ some (J.object fs)
