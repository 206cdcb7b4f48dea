-- ===== src/Protocol.antt =====
-- What main/src/chat/protocol.c checks about a message, and whom it tells.
pub mod Handlers
pub mod Checks
pub mod Targets
pub mod Dispatch
pub mod Identity
pub mod Parties
pub mod Privacy
use Prim.Native.String.{String}
use esp32_web_chat.Common.{
  ℕ, zero, suc, ◌+◌, Bool, true, false, not, ◌&&◌, ◌||◌, Option, none, some, List, [], ◌∷◌, Bytes,
  codes, bytes_eq, is_empty, is_none, length, ltb, leb, ◌==◌, if◌then◌else◌,
}
use esp32_web_chat.Common.Int.{ℤ}
use esp32_web_chat.Config.{
  Config, ClientSlot, max_user_id_len, max_name_len, max_request_id_len, max_group_id_len,
  max_group_name_len,
}
use esp32_web_chat.Slots.{Slots}
use esp32_web_chat.Platform.{
  Platform, Run, World, AppContext, client_mutex, EspErr, esp_ok, err_invalid_arg,
  err_invalid_state, err_timeout, is_ok, ◌>>=◌, ◌>>◌, done, call, get_ctx, locked, on_option,
}
use esp32_web_chat.Server.{send_text, send_error, close_client}
use esp32_web_chat.Json.{json_string_in_range, json_array_contains_string, safe_integer, text_is}

module _ (p : Platform) where
  open p use {
    Env, Node, get_item, children, value_string, is_object, is_array, is_string, is_number, is_bool,
    is_true, add_object, add_array, add_bool, set_item,
  }

  -- cJSON_GetObjectItemCaseSensitive of an item that may be NULL.
  abbrev pub item_of : Option Node → String → Option Node
  item_of none key = none
  item_of (some n) key = get_item n key

  -- cJSON_IsTrue, cJSON_IsArray of an item that may be NULL.
  abbrev pub holds_true : Option Node → Bool
  holds_true none = false
  holds_true (some n) = is_true n

  -- The text of an item, where it has one.
  abbrev pub text_of_item : Option Node → Option Bytes
  text_of_item none = none
  text_of_item (some n) = value_string n

  -- Fields of the kinds that several messages have.
  abbrev pub valid_user : Option Node → Bool
  valid_user item = json_string_in_range p item max_user_id_len false

  abbrev pub valid_name : Option Node → Bool
  valid_name item = json_string_in_range p item max_name_len false

  -- The loop of validate_to_object over the users.
  unfoldable pub all_valid_users : List Node → Bool
  unfolding json_string_in_range
  all_valid_users [] = true
  all_valid_users (user ∷ users) = valid_user (some user) && all_valid_users users

  -- The end of validate_to_object: `users` stands in `to` and `to` in the root.
  unfoldable pub targets_are_valid : ℕ → Option Node → Node → Bool
  unfolding all_valid_users
  targets_are_valid max_clients all users =
      is_array users
      && leb (length (children users)) (max_clients + 1)
      && all_valid_users (children users)
      && (holds_true all || ltb 0 (length (children users)))

  -- `all`, which is added where it is missing: the changed `to`.
  unfoldable pub ensure_all : Node → Run Env (Option Node)
  ensure_all to =
      on_option (get_item to "all") (call (add_bool to "all" false)) λ all. done (some to)

  -- An item, which is added where it is missing: the changed parent, and the item.
  unfoldable pub ensure_item :
      (Node → String → Env → Option (Node × Node) × Env)
      → Node
      → String
      → Run Env (Option (Node × Node))
  ensure_item make parent key =
      on_option (get_item parent key) (call (make parent key)) λ item. done (some (parent, item))

  -- cJSON_IsBool of an item that may be NULL.
  abbrev pub on_bool : Option Node → Bool
  on_bool none = false
  on_bool (some n) = is_bool n

  -- validate_to_object: `none` where it returns false, and the root as it leaves it.
  unfoldable pub validate_to_object : ℕ → Node → Run Env (Option Node)
  unfolding ensure_item ensure_all targets_are_valid
  validate_to_object max_clients root = do
    found ← ensure_item add_object root "to"
    on_option found (done none) λ (root1, to0). if not (is_object to0) then done none else (do
      with_all ← ensure_all to0
      on_option with_all (done none) λ to1.
          if not (on_bool (get_item to1 "all")) then done none else (do
            with_users ← ensure_item add_array to1 "users"
            on_option with_users (done none) λ (to2, users).
                if targets_are_valid max_clients (get_item to2 "all") users
                then done (some (set_item root1 "to" to2))
                else done none))

  -- validate_group_fields.
  unfoldable pub validate_group_fields : Node → Bool → Bool
  unfolding json_string_in_range
  validate_group_fields message required =
      let group_id = get_item message "groupId" in
      let group_name = get_item message "groupName" in
      if not required && is_none group_id && is_none group_name
      then true
      else json_string_in_range p group_id max_group_id_len false
        && json_string_in_range p group_name max_group_name_len false

  -- `cJSON_IsString(from) && from->valuestring != NULL && strcmp(from->valuestring, user_id) == 0`
  abbrev pub is_from : Option Node → Bytes → Bool
  is_from none user = false
  is_from (some from) user = is_string from && text_is (value_string from) user

  -- message_visible_to_user, once there is a `to`.
  abbrev pub is_addressed : Option Node → Bytes → Bool
  is_addressed none user = false
  is_addressed (some to) user =
      is_object to
      && (holds_true (get_item to "all") || json_array_contains_string p (get_item to "users") user)

  -- message_visible_to_user, for a user id that is not NULL.
  unfoldable pub message_visible_to_user : Node → Bytes → Bool
  unfolding json_array_contains_string
  message_visible_to_user message user =
      is_object message
      && not (is_empty user)
      && (is_from (get_item message "from") user || is_addressed (get_item message "to") user)

  -- json_safe_message_id: `none` where it returns false.
  unfoldable pub json_safe_message_id : Option Node → Bool → Option ℕ
  unfolding safe_integer
  json_safe_message_id item allow_zero = safe_integer p (if allow_zero then 0 else 1) item

  -- send_error_and_close.
  unfoldable pub send_error_and_close : ℤ → String → String → Run Env EspErr
  unfolding send_error close_client
  send_error_and_close fd code message = do
    ret ← send_error p fd code message
    close_client p fd
    done (if is_ok ret then err_invalid_state else ret)

  -- Whether relay_payload_to_targets sends to a slot. It looks at `active`, not at `closing`.
  abbrev pub is_target : Bool → Option Node → ClientSlot → Bool
  is_target send_all users s =
      s.active
      && s.joined
      && not (is_empty s.user_id)
      && (send_all || json_array_contains_string p users s.user_id)

  -- Its first loop. A slot adds one descriptor at most, so the array of MAX_CLIENTS places is never
  -- full.
  unfoldable pub relay_fds : Bool → Option Node → Slots → List ℤ
  unfolding json_array_contains_string
  relay_fds send_all users [] = []
  relay_fds send_all users (s ∷ ss) =
      let rest = relay_fds send_all users ss in
      if is_target send_all users s then s.fd ∷ rest else rest

  -- `ret != ESP_OK && first_error == ESP_OK`.
  abbrev pub first_of : EspErr → EspErr → EspErr
  first_of first ret = if is_ok first then ret else first

  -- Its second loop, with the first error so far.
  unfoldable pub relay_each : Bytes → List ℤ → EspErr → Run Env EspErr
  unfolding send_text close_client
  relay_each payload [] first = done first
  relay_each payload (fd ∷ fds) first = do
    ret ← send_text p fd payload
    if is_ok ret
        then relay_each payload fds first
        else (do close_client p fd; relay_each payload fds (first_of first ret))

  -- Whether there is an item, an array that is not empty.
  abbrev pub has_users : Option Node → Bool
  has_users none = false
  has_users (some users) = is_array users && ltb 0 (length (children users))

  -- relay_payload_to_targets; neither the context nor the payload is NULL.
  unfoldable pub relay_payload_to_targets : Option Node → Bytes → Run Env EspErr
  unfolding relay_fds relay_each
  relay_payload_to_targets found payload = on_option found (done err_invalid_arg) λ to.
      let users = get_item to "users" in
      let send_all = holds_true (get_item to "all") in
      if not (is_object to) || (not send_all && not (has_users users))
      then done err_invalid_arg
      else (do
        fds ←
            locked p client_mutex none
              (do ctx ← get_ctx; done (some (relay_fds send_all users ctx.client_slots)))
        on_option fds (done err_timeout) λ targets. relay_each payload targets esp_ok)
