-- ===== src/Json.antt =====
-- The JSON helpers of main/src/common/utils.c, over cJSON's nodes.
pub mod Keys
pub mod Parsed
pub mod Texts
use esp32_web_chat.Common.{
  ℕ, zero, suc, Bool, true, false, not, ◌&&◌, ◌||◌, Option, none, some, List, [], ◌∷◌, Bytes,
  bytes_eq, ltb, leb, ◌==◌, if◌then◌else◌, length, drop,
}
use esp32_web_chat.Config.{max_safe_id}
use esp32_web_chat.Platform.{Platform, Run, ◌>>=◌, done, call, on_option}
use esp32_web_chat.JsonScan.{may_parse}

-- `s != NULL && strcmp(s, t) == 0`
abbrev pub text_is : Option Bytes → Bytes → Bool
text_is none t = false
text_is (some s) t = bytes_eq s t

-- `(allow_empty || len > 0) && len <= max_len` on a string that is not NULL
abbrev pub fits : Option Bytes → ℕ → Bool → Bool
fits none max_len allow_empty = false
fits (some s) max_len allow_empty = (allow_empty || ltb 0 (length s)) && leb (length s) max_len

-- The bytes after the root that the last loop of chat_json_parse_object passes over.
abbrev pub is_blank : ℕ → Bool
is_blank b = b == 32 || b == 9 || b == 10 || b == 13

unfoldable pub all_blank : Bytes → Bool
all_blank [] = true
all_blank (b ∷ bs) = is_blank b && all_blank bs

module _ (p : Platform) where
  open p use {
    Env, Node, key_of, value_string, children, is_object, is_array, is_string, is_number,
    value_double, is_below, is_above, is_same, to_uint64, parse,
  }

  -- json_string_in_range on an item that was looked up: cJSON_IsString of NULL is false.
  unfoldable pub json_string_in_range : Option Node → ℕ → Bool → Bool
  json_string_in_range none max_len allow_empty = false
  json_string_in_range (some item) max_len allow_empty =
      is_string item && fits (value_string item) max_len allow_empty

  -- The loop of json_array_contains_string.
  unfoldable pub contains_string : Bytes → List Node → Bool
  contains_string value [] = false
  contains_string value (item ∷ items) =
      (is_string item && text_is (value_string item) value) || contains_string value items

  unfoldable pub json_array_contains_string : Option Node → Bytes → Bool
  unfolding contains_string
  json_array_contains_string none value = false
  json_array_contains_string (some array) value =
      is_array array && contains_string value (children array)

  -- The `while` loop over the items after a key.
  unfoldable pub key_again : Bytes → List Node → Bool
  key_again key [] = false
  key_again key (other ∷ rest) = text_is (key_of other) key || key_again key rest

  -- The tests of a member of an object before the recursive call.
  abbrev pub bad_key : Option Bytes → List Node → Bool
  bad_key none rest = true
  bad_key (some key) rest = key_again key rest

  -- The loop over an object's members, and over an array's, with the recursive call as a function.
  unfoldable pub bad_members : (Node → Bool) → List Node → Bool
  unfolding key_again
  bad_members recur [] = false
  bad_members recur (child ∷ rest) =
      bad_key (key_of child) rest || recur child || bad_members recur rest

  unfoldable pub bad_elements : (Node → Bool) → List Node → Bool
  bad_elements recur [] = false
  bad_elements recur (child ∷ rest) = recur child || bad_elements recur rest

  -- json_has_duplicate_keys. The fuel bounds the depth of the nodes that are looked at.
  unfoldable pub json_has_duplicate_keys : ℕ → Node → Bool
  unfolding bad_members bad_elements
  json_has_duplicate_keys zero item = false
  json_has_duplicate_keys (suc depth) item =
      if is_object item
      then bad_members (json_has_duplicate_keys depth) (children item)
      else if is_array item
      then bad_elements (json_has_duplicate_keys depth) (children item)
      else false

  -- The test of what cJSON read: an object, with nothing but blanks after it, and no key twice.
  unfoldable pub accepts : ℕ → Bytes → Node × ℕ → Bool
  unfolding json_has_duplicate_keys all_blank
  accepts depth payload (root, end) =
      is_object root && all_blank (drop end payload) && not (json_has_duplicate_keys depth root)

  -- chat_json_parse_object. cJSON is called on what may_parse lets through, whose brackets are at
  -- most 16 deep, so 17 levels of nodes.
  unfoldable pub chat_json_parse_object : Bytes → Run Env (Option Node)
  unfolding may_parse accepts
  chat_json_parse_object payload = if not (may_parse payload) then done none else (do
    parsed ← call (parse payload)
    on_option parsed (done none)
        λ read. if accepts 17 payload read then done (some read.0) else done none)

  -- `value < low || value > MAX_SAFE_ID || (double)(uint64_t)value != value`, and the integer: the
  -- tests of json_safe_message_id and of chat_history_parse_since_id.
  unfoldable pub safe_integer : ℕ → Option Node → Option ℕ
  safe_integer low none = none
  safe_integer low (some item) =
      if not (is_number item)
        || is_below (value_double item) low
        || is_above (value_double item) max_safe_id
      then none
      else if not (is_same (value_double item) (to_uint64 (value_double item)))
      then none
      else some (to_uint64 (value_double item))
