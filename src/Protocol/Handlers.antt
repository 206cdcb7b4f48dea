-- ===== src/Protocol/Handlers.antt =====
-- The handlers of main/src/chat/protocol.c, one for each type of message, and their dispatch.
use Prim.Native.String.{String}
use esp32_web_chat.Common.{ℕ, Bool, true, false, not, ◌||◌, Option, none, Bytes, if◌then◌else◌}
use esp32_web_chat.Common.Int.{ℤ}
use esp32_web_chat.Config.{Config}
use esp32_web_chat.Slots.{IdentityStatus, mismatch}
use esp32_web_chat.Platform.{Platform, Run, EspErr, esp_ok, is_ok, ◌>>=◌, ◌>>◌, done, on_option}
use esp32_web_chat.Sessions.{check_identity, update_time_sample}
use esp32_web_chat.Server.{send_error, close_client, broadcast}
use esp32_web_chat.Messages.{ensure_id_state, finalize_and_store_message, send_to_client}
use esp32_web_chat.HistoryInfo.{parse_since_id, send_info_to_client, broadcast_info}
use esp32_web_chat.Presence.{send_online_users_to_client}
use esp32_web_chat.Presence.Queue.{broadcast_online_users}
use esp32_web_chat.Takeover.{update_identity}
use esp32_web_chat.Json.{json_string_in_range}
use esp32_web_chat.Protocol.{
  text_of_item, valid_user, valid_name, validate_to_object, validate_group_fields,
  send_error_and_close,
}
use esp32_web_chat.Protocol.Checks.{is_text_type, is_group_type}

abbrev pub is_mismatch : IdentityStatus → Bool
is_mismatch mismatch = true
is_mismatch _ = false

-- `ret == ESP_ERR_INVALID_SIZE`
abbrev is_exhausted : EspErr → Bool
is_exhausted EspErr.err_invalid_size = true
is_exhausted _ = false

module _ (p : Platform) (cfg : Config) where
  open p use {
    Env, Node, get_item, is_above, value_double, add_number, delete_item, set_item,
    print_unformatted,
  }

  -- `if (presence_changed) chat_sessions_broadcast_online_users(ctx); return ESP_OK;`
  unfoldable pub announce_if : Bool → Run Env EspErr
  announce_if false = done esp_ok
  announce_if true = do closed ← broadcast_online_users p; done esp_ok

  -- `if (sync_ret == ESP_OK) sync_ret = step;`
  abbrev pub then_sync : EspErr → Run Env EspErr → Run Env EspErr
  then_sync ret step = if is_ok ret then step else done ret

  -- handle_join_message, once the identity is in the table.
  unfoldable pub synchronise : ℤ → ℕ → Run Env EspErr
  synchronise fd since_id = do
    history ← send_to_client p fd since_id
    info ← then_sync history (send_info_to_client p cfg.heartbeat_interval_s fd)
    ret ← then_sync info (send_online_users_to_client p fd)
    if is_ok ret then announce_if true else (do close_client p fd; done ret)

  -- handle_join_message, once the ids are loaded: take the identity on, and synchronise.
  unfoldable pub join_now : ℤ → Node → ℕ → Option Bytes → Option Bytes → Run Env EspErr
  join_now fd root since_id user name = do
    updated ← update_identity p fd user name
    if not updated
        then send_error_and_close p fd "not_registered" "WebSocket client slot was not found"
        else (do sampled ← update_time_sample p fd root; synchronise fd since_id)

  -- handle_join_message, once the fields are checked.
  unfoldable pub join_as : ℤ → Node → ℕ → Option Bytes → Option Bytes → Run Env EspErr
  join_as fd root since_id user name = do
    identity ← check_identity p fd user
    if is_mismatch identity
        then send_error_and_close p fd "bad_identity"
            "Join identity cannot change on an open connection"
        else (do
          ready ← ensure_id_state p
          if not (is_ok ready)
              then send_error_and_close p fd "server_busy"
                  "Message ID storage is temporarily unavailable"
              else join_now fd root since_id user name)

  unfoldable pub handle_join_message : ℤ → Node → Run Env EspErr
  handle_join_message fd root =
      let from = get_item root "from" in
      let name = get_item root "name" in
      if not (valid_user p from) || not (valid_name p name)
      then send_error_and_close p fd "bad_join" "Join requires valid from and name fields"
      else on_option (parse_since_id p root)
          (send_error_and_close p fd "bad_since_id" "since_id must be a safe non-negative integer")
          (λ since_id. join_as fd root since_id (text_of_item p from) (text_of_item p name))

  -- handle_chat_message, once the message is checked: store it, and tell everybody.
  unfoldable pub store_and_broadcast : ℤ → Node → Run Env EspErr
  store_and_broadcast fd root = do
    r ← finalize_and_store_message p root
    on_option (if is_ok r.0 then r.1 else none)
        (if is_exhausted r.0
          then send_error p fd "id_exhausted" "Message id space is exhausted"
          else send_error p fd "server_busy" "Unable to persist message id")
        (λ payload. do
          closed ← broadcast p payload
          closed' ← broadcast_info p cfg.heartbeat_interval_s
          announce_if (closed' || closed))

  -- validate_to_object, and what handle_chat_message does after it.
  unfoldable pub target_and_store : ℤ → Node → String → String → Run Env EspErr
  target_and_store fd root code message = do
    targeted ← validate_to_object p cfg.max_clients root
    on_option targeted (send_error p fd code message) λ root'. store_and_broadcast fd root'

  unfoldable pub handle_chat_message : ℤ → Node → Run Env EspErr
  handle_chat_message fd root =
      let type = get_item root "type" in
      let content = get_item root "data" in
      if not (valid_user p (get_item root "from")) || not (valid_name p (get_item root "name"))
      then send_error p fd "bad_message" "Message requires valid from and name fields"
      else if not (validate_group_fields p root (is_group_type p type))
      then send_error p fd "bad_group" "Group metadata requires valid groupId and groupName"
      else if is_text_type p type
      then if not (json_string_in_range p content cfg.max_text_bytes false)
        then send_error p fd "bad_text" "Text message is empty or too long"
        else target_and_store fd root "bad_target"
            "Message target must be all users or a non-empty user list"
      else if is_group_type p type
      then if not (json_string_in_range p content cfg.max_text_bytes true)
        then send_error p fd "bad_group"
            "Group creation requires groupId, groupName, data, and target users"
        else target_and_store fd root "bad_group"
            "Group creation requires groupId, groupName, data, and target users"
      else send_error p fd "unknown_type" "Unsupported chat message type"
