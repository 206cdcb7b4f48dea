-- ===== src/Protocol/Dispatch.antt =====
-- The requests for older history of main/src/chat/protocol.c, the responses to them, and the dispatch
-- of a message to its handler.
use esp32_web_chat.Common.{
  ℕ, Bool, true, false, not, ◌&&◌, ◌||◌, Option, none, some, Bytes, codes, leb, ltb, if◌then◌else◌,
}
use esp32_web_chat.Common.Int.{ℤ, pos}
use esp32_web_chat.Config.{Config, max_request_id_len}
use esp32_web_chat.Platform.{Platform, Run, EspErr, esp_ok, is_ok, ◌>>=◌, done, call, on_option}
use esp32_web_chat.Sessions.{is_joined, mark_alive}
use esp32_web_chat.Server.{send_error, broadcast}
use esp32_web_chat.Messages.{current_restore_before_id}
use esp32_web_chat.Presence.{send_online_users_to_client}
use esp32_web_chat.Presence.Queue.{broadcast_online_users}
use esp32_web_chat.Json.{json_string_in_range, text_is}
use esp32_web_chat.Protocol.{
  holds_true, text_of_item, item_of, valid_user, valid_name, validate_to_object,
  json_safe_message_id, send_error_and_close, relay_payload_to_targets,
}
use esp32_web_chat.Protocol.Checks.{
  validate_history_message_object, history_response_targets_match_message, require_joined_identity,
}
use esp32_web_chat.Protocol.Handlers.{announce_if, handle_join_message, handle_chat_message}

module _ (p : Platform) (cfg : Config) where
  open p use {
    Env, Node, get_item, is_above, value_double, add_number, delete_item, set_item,
    print_unformatted,
  }

  -- The fields that a request and a response share.
  abbrev valid_exchange : Node → Bool
  valid_exchange root =
      valid_user p (get_item root "from")
      && valid_name p (get_item root "name")
      && json_string_in_range p (get_item root "requestId") max_request_id_len false

  -- `restore_before->valuedouble <= 1`
  abbrev is_at_most_one : Option Node → Bool
  is_at_most_one none = true
  is_at_most_one (some n) = not (is_above (value_double n) 1)

  -- handle_history_request_message, once the boundary is known: relay the request to everybody.
  unfoldable pub relay_request : ℤ → Node → ℕ → Run Env EspErr
  relay_request fd root requested_before = do
    added ← call (
        add_number (delete_item root "restore_before_id") "restore_before_id"
          (pos requested_before))
    on_option added (send_error p fd "server_busy" "Unable to relay history request") λ root'. do
      printed ← call (print_unformatted root')
      on_option printed (send_error p fd "server_busy" "Unable to relay history request")
          λ payload. do closed ← broadcast p payload; announce_if p cfg closed

  -- `if (requested_before > allowed_before) requested_before = allowed_before;`
  abbrev pub clamp : ℕ → ℕ → ℕ
  clamp requested allowed = if ltb allowed requested then allowed else requested

  unfoldable pub handle_history_request_message : ℤ → Node → Run Env EspErr
  handle_history_request_message fd root =
      let restore_before = get_item root "restore_before_id" in
      let reject = send_error p fd "bad_history_request" "History request is invalid" in
      if not (valid_exchange root)
      then reject
      else on_option (json_safe_message_id p restore_before false) reject λ requested.
        if is_at_most_one restore_before then reject else (do
          allowed ← current_restore_before_id p
          if leb (clamp requested allowed) 1
              then send_error p fd "no_restorable_history"
                  "No older server history boundary is available"
              else relay_request fd root (clamp requested allowed))

  -- The end of handle_history_response_message.
  unfoldable pub report_relay : ℤ → EspErr → Run Env EspErr
  report_relay fd ret = if is_ok ret then done esp_ok else (do
    closed ← broadcast_online_users p
    send_error p fd "relay_failed" "Unable to relay history response")

  -- handle_history_response_message, once the message is checked.
  unfoldable pub relay_response : ℤ → Node → Option Node → Run Env EspErr
  relay_response fd root to = do
    printed ← call (print_unformatted root)
    on_option printed (send_error p fd "server_busy" "Unable to relay history response")
        λ payload. do ret ← relay_payload_to_targets p to payload; report_relay fd ret

  -- Its tests of the id against the boundary and of the targets against the message. The root holds
  -- the message as validate_history_message_object left it.
  unfoldable pub check_response : ℤ → Node → Node → Run Env EspErr
  check_response fd root message = do
    restore_before ← current_restore_before_id p
    if leb restore_before (or_zero (json_safe_message_id p (get_item message "id") false))
        then send_error p fd "bad_history_response"
            "History response is not older than the server boundary"
        else if not (history_response_targets_match_message p root message)
        then send_error p fd "bad_history_response"
            "History response is not visible to the requested user"
        else relay_response fd (set_item root "message" message) (get_item root "to")
    where
      or_zero : Option ℕ → ℕ
      or_zero none = 0
      or_zero (some n) = n

  unfoldable pub handle_history_response_message : ℤ → Node → Run Env EspErr
  handle_history_response_message fd root =
      if not (valid_exchange root)
      then send_error p fd "bad_history_response" "History response is missing sender fields"
      else (do
        targeted ← validate_to_object p cfg.max_clients root
        on_option targeted untargeted λ root'.
            if holds_true p (item_of p (get_item root' "to") "all")
            then untargeted
            else on_option (get_item root' "message") invalid λ message. do
              validated ←
                  validate_history_message_object p cfg.max_clients cfg.max_text_bytes message
              on_option validated invalid λ message'. check_response fd root' message')
    where
      untargeted : Run Env EspErr
      untargeted =
          send_error p fd "bad_history_response" "History response must target specific users"

      invalid : Run Env EspErr
      invalid =
          send_error p fd "bad_history_response" "History response contains an invalid message"

  -- chat_protocol_handle_json from the test of the identity on, for every type but "pong" and "join".
  unfoldable pub handle_as_joined : ℤ → Node → Option Bytes → Run Env EspErr
  handle_as_joined fd root type = do
    identity ← require_joined_identity p fd root
    if not (is_ok identity)
        then done identity
        else if text_is type (codes "getOnlineUser")
        then send_online_users_to_client p fd
        else if text_is type (codes "text") || text_is type (codes "newGroup")
        then handle_chat_message p cfg fd root
        else if text_is type (codes "historyRequest")
        then handle_history_request_message fd root
        else if text_is type (codes "historyResponse")
        then handle_history_response_message fd root
        else send_error p fd "unknown_type" "Unsupported message type"

  -- chat_protocol_handle_json on a "pong".
  unfoldable pub handle_pong : ℤ → Node → Run Env EspErr
  handle_pong fd root = do
    identity ← require_joined_identity p fd root
    if not (is_ok identity) then done identity else (do marked ← mark_alive p fd; done esp_ok)

  -- chat_protocol_handle_json on a message without a usable type.
  unfoldable pub refuse_type : ℤ → Run Env EspErr
  refuse_type fd = do
    joined ← is_joined p fd
    if joined
        then send_error p fd "bad_type" "Message type is required"
        else send_error_and_close p fd "bad_type" "Message type is required"

  -- chat_protocol_handle_json.
  unfoldable pub handle_json : ℤ → Node → Run Env EspErr
  handle_json fd root =
      let type = text_of_item p (get_item root "type") in
      if not (json_string_in_range p (get_item root "type") 24 false)
      then refuse_type fd
      else if text_is type (codes "pong")
      then handle_pong fd root
      else if text_is type (codes "join")
      then handle_join_message p cfg fd root
      else handle_as_joined fd root type
