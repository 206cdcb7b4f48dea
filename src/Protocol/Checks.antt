-- ===== src/Protocol/Checks.antt =====
-- What main/src/chat/protocol.c checks about a message of the history that a client sends back, and
-- about the sender of a message.
use esp32_web_chat.Common.{
  ℕ, Bool, true, false, not, ◌&&◌, ◌||◌, Option, none, some, List, [], ◌∷◌, Bytes, codes, is_none,
  length, ltb, if◌then◌else◌,
}
use esp32_web_chat.Common.Int.{ℤ}
use esp32_web_chat.Slots.{IdentityStatus, not_joined, identity_ok}
use esp32_web_chat.Platform.{Platform, Run, EspErr, esp_ok, ◌>>=◌, done, on_option}
use esp32_web_chat.Sessions.{check_identity, update_time_sample}
use esp32_web_chat.Json.{json_string_in_range, text_is}
use esp32_web_chat.Protocol.{
  text_of_item, valid_user, valid_name, validate_to_object, validate_group_fields,
  message_visible_to_user, json_safe_message_id, send_error_and_close,
}

-- `identity == CHAT_IDENTITY_NOT_JOINED`, `identity == CHAT_IDENTITY_OK`
abbrev pub is_not_joined : IdentityStatus → Bool
is_not_joined not_joined = true
is_not_joined _ = false

abbrev pub is_identity_ok : IdentityStatus → Bool
is_identity_ok identity_ok = true
is_identity_ok _ = false

module _ (p : Platform) where
  open p use {Env, Node, get_item, children, is_object, is_array, is_number}

  -- `strcmp(type->valuestring, "text") == 0`, and so for "newGroup".
  abbrev pub is_text_type : Option Node → Bool
  is_text_type type = text_is (text_of_item p type) (codes "text")

  abbrev pub is_group_type : Option Node → Bool
  is_group_type type = text_is (text_of_item p type) (codes "newGroup")

  abbrev pub is_a_number : Option Node → Bool
  is_a_number none = false
  is_a_number (some n) = is_number n

  -- The tests of validate_history_message_object that change nothing.
  unfoldable pub history_fields_are_valid : Node → Bool
  unfolding json_string_in_range json_safe_message_id
  history_fields_are_valid message =
      is_object message
      && not (is_none (json_safe_message_id p (get_item message "id") false))
      && is_a_number (get_item message "timestamp")
      && json_string_in_range p (get_item message "type") 24 false
      && valid_user p (get_item message "from")
      && valid_name p (get_item message "name")

  -- Its last tests: the text of the message, for the two types that are stored.
  unfoldable pub history_data_is_valid : ℕ → Option Node → Option Node → Bool
  unfolding json_string_in_range
  history_data_is_valid max_text_bytes type content =
      if is_text_type type
      then json_string_in_range p content max_text_bytes false
      else if is_group_type type
      then json_string_in_range p content max_text_bytes true
      else false

  -- validate_history_message_object: `none` where it returns false, and the message as it leaves it.
  unfoldable pub validate_history_message_object : ℕ → ℕ → Node → Run Env (Option Node)
  unfolding history_fields_are_valid history_data_is_valid validate_to_object validate_group_fields
  validate_history_message_object max_clients max_text_bytes message =
      let type = get_item message "type" in
      if not (history_fields_are_valid message) then done none else (do
        targeted ← validate_to_object p max_clients message
        on_option targeted (done none) λ message'.
            if validate_group_fields p message' (is_group_type type)
              && history_data_is_valid max_text_bytes type (get_item message' "data")
            then done (some message')
            else done none)

  -- `message_visible_to_user(message, target->valuestring)`
  abbrev pub sees : Node → Option Bytes → Bool
  sees message none = false
  sees message (some user) = message_visible_to_user p message user

  -- The loop of history_response_targets_match_message.
  unfoldable pub all_see : Node → List Node → Bool
  unfolding json_string_in_range message_visible_to_user
  all_see message [] = true
  all_see message (target ∷ targets) =
      valid_user p (some target)
      && sees message (text_of_item p (some target))
      && all_see message targets

  -- `cJSON_IsObject(to) ? cJSON_GetObjectItemCaseSensitive(to, "users") : NULL`
  abbrev pub users_of : Option Node → Option Node
  users_of none = none
  users_of (some to) = if is_object to then get_item to "users" else none

  -- The test of the array of users, and the loop.
  abbrev pub users_match : Node → Option Node → Bool
  users_match message none = false
  users_match message (some users) =
      is_array users && ltb 0 (length (children users)) && all_see message (children users)

  -- history_response_targets_match_message.
  unfoldable pub history_response_targets_match_message : Node → Node → Bool
  unfolding all_see
  history_response_targets_match_message root message =
      users_match message (users_of (get_item root "to"))

  -- require_joined_identity.
  unfoldable pub require_joined_identity : ℤ → Node → Run Env EspErr
  unfolding check_identity send_error_and_close update_time_sample json_string_in_range
  require_joined_identity fd root = do
    let from = get_item root "from"
    let valid_from = valid_user p from
    identity ← check_identity p fd (if valid_from then text_of_item p from else none)
    if is_not_joined identity
        then send_error_and_close p fd "not_joined" "Join before sending this message"
        else if not valid_from || not (is_identity_ok identity)
        then send_error_and_close p fd "bad_identity"
            "Message sender does not match the joined user"
        else (do sampled ← update_time_sample p fd root; done esp_ok)
