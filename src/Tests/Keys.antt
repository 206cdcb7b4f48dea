-- ===== src/Tests/Keys.antt =====
-- Keys that stand twice in an object, and those that do not.
use mathlib.Core.Option.{some-injective}
use esp32_web_chat.Common.{
  ℕ, zero, suc, ◌≡◌, ◌↔◌, refl, true, false, some, [], ◌∷◌, Bytes, codes, length, subst, bytes_eq,
  arith,
}
use esp32_web_chat.Platform.{Platform, ◌>>=◌, call, done}
use esp32_web_chat.Utf8.{valid_utf8, step}
use esp32_web_chat.Json.Parsed.{Levels, IsParsed, chat_json_parse_object-IsParsed}
use esp32_web_chat.Json.{
  chat_json_parse_object, json_has_duplicate_keys, bad_members, bad_elements, key_again,
}
use esp32_web_chat.Json.Keys.{Within, HasDistinctKeys, json_has_duplicate_keys_iff}
use esp32_web_chat.Tests.Json.{Tree, number, object, array, more, leaf}
use esp32_web_chat.Tests.Store.{ready, world}

-- {"a": 1, "b": 2}
abbrev pair : Tree
pair = object [] (more (number (97 ∷ []) 1) (more (number (98 ∷ []) 2) leaf))

pair-Within : Within ready 2 pair
pair-Within container zero c g = λ t. absurd (ground (arith, g, t))
pair-Within container (suc zero) c g = λ t. absurd (ground (arith, g, t))
pair-Within container (suc (suc i)) c g = absurd (ground (arith, g))

json_has_duplicate_keys_iff_example :
    (json_has_duplicate_keys ready 2 pair ≡ false) ↔ HasDistinctKeys ready pair
json_has_duplicate_keys_iff_example = json_has_duplicate_keys_iff ready 2 pair pair-Within

-- [{"a": 1, "a": 2}]
finds_twice :
    json_has_duplicate_keys ready 17 (
      array [] (more (object [] (more (number (97 ∷ []) 1) (more (number (97 ∷ []) 2) leaf))) leaf))
    ≡ true
unfolding json_has_duplicate_keys bad_members bad_elements key_again bytes_eq
finds_twice = refl

pair-levels : Within ready 17 pair
pair-levels container zero c g = λ t. absurd (ground (arith, g, t))
pair-levels container (suc zero) c g = λ t. absurd (ground (arith, g, t))
pair-levels container (suc (suc i)) c g = absurd (ground (arith, g))

-- A cJSON that reads every payload as that object.
abbrev reads_pair : Platform
reads_pair = record ready { parse = λ t e. (some (pair, length t), e) }

reads_pair-Levels : Levels reads_pair
reads_pair-Levels = record {
  levels = λ t e n end nested q.
      subst (λ (x : Tree × ℕ). Within ready 17 x.0) (some-injective _ _ q) pair-levels;
}

abbrev text : Bytes
text = codes "{\"a\": 1, \"b\": 2}"

parses : (chat_json_parse_object reads_pair text world).0 ≡ some pair
unfolding chat_json_parse_object ◌>>=◌ call done valid_utf8 step bytes_eq
parses = refl

chat_json_parse_object-IsParsed_example : IsParsed reads_pair text world.env pair
chat_json_parse_object-IsParsed_example =
    chat_json_parse_object-IsParsed reads_pair reads_pair-Levels text world pair parses
