-- ===== src/Tests/Platform.antt =====
-- A JSON library whose `dump` knows one object, and libraries that never throw.
use mathlib.Core.Path.{refl}
use ant_media_server_confere.Base.{
  ℕ, zero, suc, String, string_dec, ◌≡◌, ap, Bool, true, false, Option, none, some, [], ◌∷◌, ◌==◌,
  if◌then◌else◌, arith,
}
use ant_media_server_confere.Base.Dict.{Dict, lookup, insert, contains}
use ant_media_server_confere.Platform.{JsonLib, Rtc, launched}
use ant_media_server_confere.Platform.Int.{ℤ}
use ant_media_server_confere.Protocol.Json.{IsLawful}

pub data Leaf : Type 0 where
  nothing : Leaf
  flag : Bool → Leaf
  number : ℤ → Leaf
  text : String → Leaf

pub data Json : Type 0 where
  leaf : Leaf → Json
  members : Dict Leaf → Json

-- A member that is an object itself is dropped to `nothing`.
abbrev pub as_leaf : Json → Leaf
as_leaf (leaf l) = l
as_leaf (members d) = nothing

abbrev pub leaves : Dict Json → Dict Leaf
leaves [] = []
leaves ((k, j) ∷ d) = (k, as_leaf j) ∷ leaves d

abbrev get_text : Option Leaf → Option String
get_text (some (text s)) = some s
get_text _ = none

abbrev text_or : String → Option Leaf → Option String
text_or s none = some s
text_or s (some (text t)) = some t
text_or s (some _) = none

abbrev number_or : ℤ → Option Leaf → Option ℤ
number_or n none = some n
number_or n (some (number k)) = some k
number_or n (some _) = none

abbrev pub fields : Json → Dict Leaf
fields (leaf l) = []
fields (members d) = d

ℕ_discrete : Discrete ℕ
ℕ_discrete zero zero = yes refl
ℕ_discrete zero (suc b) = no (λ e. omega arith)
ℕ_discrete (suc a) zero = no (λ e. omega arith)
ℕ_discrete (suc a) (suc b) = elim (ℕ_discrete a b) [
  | yes e ↦ yes (ap suc e)
  | no n ↦ no (λ e. n (omega arith))
]

-- Equality of objects, as a decision.
pub members_dec : Discrete (Dict Leaf)
members_dec = hlevel (ℕ_discrete, string_dec)

lookup-leaves :
    (k : String) (d : Dict Json) (j : Json)
    → lookup k d ≡ some j
    → lookup k (leaves d) ≡ some (as_leaf j)
unfolding lookup
lookup-leaves k [] j h = ground arith
lookup-leaves k ((i, v) ∷ d) j h = ground (arith, lookup-leaves k d j)

leaves_missing : (k : String) (d : Dict Json) → lookup k d ≡ none → lookup k (leaves d) ≡ none
unfolding lookup
leaves_missing k [] h = refl
leaves_missing k ((i, v) ∷ d) h = ground (arith, leaves_missing k d)

contains-leaves : (k : String) (d : Dict Json) → contains k (leaves d) ≡ contains k d
unfolding lookup
contains-leaves k [] = refl
contains-leaves k ((i, v) ∷ d) = ground (arith, contains-leaves k d)

leaves-insert :
    (k : String) (j : Json) (d : Dict Json)
    → insert k (as_leaf j) (leaves d) ≡ leaves (insert k j d)
unfolding insert
leaves-insert k j [] = refl
leaves-insert k j ((i, v) ∷ d) = ground (arith, leaves-insert k j d)

-- `dump` knows the members `d` under the text "sample", which `parse` reads back.
abbrev dumped : {d e : Dict Leaf} → Dec (d ≡ e) → Option String
dumped (yes _) = some "sample"
dumped (no _) = none

dumped_self : {d : Dict Leaf} (x : Dec (d ≡ d)) → dumped x ≡ some "sample"
dumped_self (yes _) = refl
dumped_self (no n) = absurd (n refl)

parsed_dumped :
    {d e : Dict Leaf} (x : Dec (d ≡ e)) (s : String) → dumped x ≡ some s → (d ≡ e) × (s ≡ "sample")
parsed_dumped (yes e) s h = (e, ground arith)
parsed_dumped (no n) s h = ground arith

abbrev dump_json : Dict Leaf → Json → Option String
dump_json e (leaf l) = none
dump_json e (members d) = dumped (members_dec d e)

abbrev pub toy : Dict Leaf → JsonLib
toy sample = record {
  Json = Json;
  null = leaf nothing;
  boolean = λ b. leaf (flag b);
  integer = λ n. leaf (number n);
  string = λ s. leaf (text s);
  object = λ d. members (leaves d);
  set_member = λ j k v. members (insert k (as_leaf v) (fields j));
  parse = λ s. if s == "sample" then some (members sample) else none;
  dump = dump_json sample;
  contains = λ j k. contains k (fields j);
  value = λ j k s. text_or s (lookup k (fields j));
  value_int = λ j k n. number_or n (lookup k (fields j));
  at = λ j k. leaf nothing;
  get_string = λ j k. get_text (lookup k (fields j));
  elements = λ j. [];
  sdp_parse = λ s. none;
}

pub toy-IsLawful : (sample : Dict Leaf) → IsLawful (toy sample)
unfolding string_dec
toy-IsLawful sample = record {
  contains-object = contains-leaves;
  value-object = λ k d s fs h. ap (text_or d) (lookup-leaves k fs _ h);
  value_missing = λ k d fs h. ap (text_or d) (leaves_missing k fs h);
  value_int-object = λ k d n fs h. ap (number_or d) (lookup-leaves k fs _ h);
  get_string-object = λ k s fs h. ap get_text (lookup-leaves k fs _ h);
  set_member-object = λ k v fs. ap members (leaves-insert k v fs);
  parse-dump =
      λ fs s h. let (p, q) = parsed_dumped (members_dec (leaves fs) sample) s h in rw (q, p) refl;
}

pub toy-dump : (sample : Dict Leaf) → (toy sample).dump (members sample) ≡ some "sample"
toy-dump sample = dumped_self (members_dec sample sample)

-- Libraries that never throw, with every channel open and no peer connection closed.
abbrev pub calm : Rtc
calm = record {
  throws = λ cs. false;
  pc_closed = λ cs pc. false;
  dc_open = λ cs dc. true;
  track_open = λ cs track. true;
  dc_label = λ dc. "channel";
  track_mid = λ track. "0";
  track_type = λ track. "audio";
  local_time = "Thu Jan 01 1970 00:00:00 GMT+0000";
  launch = λ cs. launched;
  has_element = λ cs. true;
  allocates = λ cs. true;
}
