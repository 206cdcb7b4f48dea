-- ===== src/System/Handlers.antt =====
-- The handlers of the protocol and of the WebSocket server keep the invariant of the system.
use Prim.Native.String.{String}
use esp32_web_chat.Common.{
  ℕ, ◌≡◌, ◌≤◌, refl, sym, subst, Bool, true, false, not, ◌||◌, ◌&&◌, Option, none, some, List, [],
  ◌∷◌, Bytes, arith, is_empty, length,
}
use esp32_web_chat.Common.Int.{ℤ}
use esp32_web_chat.Config.{Config, max_user_id_len}
use esp32_web_chat.Platform.{Platform, AppContext, EspErr, is_ok}
use esp32_web_chat.Platform.Rules.{
  Keeps, keeps_rules, Keeps-locked, Keeps-bind, Keeps-then, Keeps-done, Keeps-if, Keeps-on_option,
}
use esp32_web_chat.Takeover.Invariant.{update_identity-Keeps}
use esp32_web_chat.HistoryInfo.{parse_since_id}
use esp32_web_chat.Json.{fits, json_string_in_range}
use esp32_web_chat.Protocol.{
  valid_user, valid_name, text_of_item, ensure_item, ensure_all, validate_to_object,
  send_error_and_close, relay_each, relay_payload_to_targets,
}
use esp32_web_chat.Protocol.Checks.{validate_history_message_object, require_joined_identity}
use esp32_web_chat.Protocol.Handlers.{
  is_mismatch, announce_if, synchronise, join_now, join_as, handle_join_message,
  store_and_broadcast, target_and_store, handle_chat_message,
}
use esp32_web_chat.Protocol.Dispatch.{
  report_relay, relay_request, handle_history_request_message, relay_response, check_response,
  handle_history_response_message, handle_as_joined, handle_pong, refuse_type, handle_json,
}
use esp32_web_chat.System.{AllowsTable, AllowsStore}
use esp32_web_chat.System.Sends.{
  send_text-Keeps, send_error-Keeps, close_client-Keeps, broadcast-Keeps, check_identity-Keeps,
  is_joined-Keeps, mark_alive-Keeps, update_time_sample-Keeps,
}
use esp32_web_chat.System.Presence.{
  send_online_users_to_client-Keeps, send_info_to_client-Keeps, broadcast_info-Keeps,
  broadcast_online_users-Keeps,
}
use esp32_web_chat.System.Store.{
  current_restore_before_id-Keeps, send_to_client-Keeps, ensure_id_state-Keeps,
  finalize_and_store_message-Keeps,
}

-- A valid user item is a user id.
pub valid_user-named :
    (p : Platform) (from : Option (p.Node))
    → valid_user p from ≡ true
    → (u : Bytes) × (text_of_item p from ≡ some u)
      × (is_empty u ≡ false)
      × (length u ≤ max_user_id_len)
unfolding json_string_in_range
valid_user-named p none v = absurd (ground arith)
valid_user-named p (some n) v = named (p.value_string n) (p.is_string n) v
  where
    named :
        (o : Option Bytes) (b : Bool)
        → (b && fits o max_user_id_len false) ≡ true
        → (u : Bytes) × (o ≡ some u) × (is_empty u ≡ false) × (length u ≤ max_user_id_len)
    named none b v = absurd (ground arith)
    named (some u) b v = (u, refl, ground arith, ground arith)

module _ (p : Platform) {I : AppContext → Type 0} where
  open p use {Env, Node}

  ensure_item-Keeps :
      (make : Node → String → Env → Option (Node × Node) × Env) (parent : Node) (key : String)
      → Keeps I (ensure_item p make parent key)
  unfolding ensure_item
  ensure_item-Keeps make parent key = search keeps_rules

  ensure_all-Keeps : (to : Node) → Keeps I (ensure_all p to)
  unfolding ensure_all
  ensure_all-Keeps to = search keeps_rules

  validate_to_object-Keeps : (max : ℕ) (root : Node) → Keeps I (validate_to_object p max root)
  unfolding validate_to_object
  validate_to_object-Keeps max root =
      search (keeps_rules, ensure_item-Keeps, ensure_all-Keeps) depth 24

  validate_history_message_object-Keeps :
      (m n : ℕ) (message : Node) → Keeps I (validate_history_message_object p m n message)
  unfolding validate_history_message_object
  validate_history_message_object-Keeps m n message =
      search (keeps_rules, validate_to_object-Keeps) depth 14

module _ (p : Platform) {I : AppContext → Type 0} (t : AllowsTable I) where
  open p use {Env, Node}

  pub send_error_and_close-Keeps :
      (fd : ℤ) (code message : String) → Keeps I (send_error_and_close p fd code message)
  unfolding send_error_and_close
  send_error_and_close-Keeps fd code message =
      search (keeps_rules, send_error-Keeps p, close_client-Keeps p t)

  relay_each-Keeps :
      (payload : Bytes) (fds : List ℤ) (first : EspErr) → Keeps I (relay_each p payload fds first)
  unfolding relay_each
  relay_each-Keeps payload [] first = Keeps-done _
  relay_each-Keeps payload (fd ∷ fds) first = Keeps-bind _ _ (send_text-Keeps p fd payload) (λ ret.
      Keeps-if (is_ok ret) _ _ (λ y. relay_each-Keeps payload fds first)
        (λ n. Keeps-then _ _ (close_client-Keeps p t fd) (relay_each-Keeps payload fds _)))

  relay_payload_to_targets-Keeps :
      (to : Option Node) (payload : Bytes) → Keeps I (relay_payload_to_targets p to payload)
  unfolding relay_payload_to_targets
  relay_payload_to_targets-Keeps to payload =
      search (keeps_rules, Keeps-locked p, relay_each-Keeps payload) depth 14

  pub require_joined_identity-Keeps :
      (fd : ℤ) (root : Node) → Keeps I (require_joined_identity p fd root)
  unfolding require_joined_identity
  require_joined_identity-Keeps fd root =
      search
        (
          keeps_rules,
          check_identity-Keeps p t,
          send_error_and_close-Keeps,
          update_time_sample-Keeps p t,
        )
        depth 14

  announce_if-Keeps : (cfg : Config) (b : Bool) → Keeps I (announce_if p cfg b)
  unfolding announce_if
  announce_if-Keeps cfg false = Keeps-done _
  announce_if-Keeps cfg true = search (keeps_rules, broadcast_online_users-Keeps p t)

module _ (p : Platform) (cfg : Config) {I : AppContext → Type 0} (t : AllowsTable I) where
  open p use {Env, Node}

  relay_request-Keeps :
      (fd : ℤ) (root : Node) (before : ℕ) → Keeps I (relay_request p cfg fd root before)
  unfolding relay_request
  relay_request-Keeps fd root before =
      search (keeps_rules, send_error-Keeps p, broadcast-Keeps p t, announce_if-Keeps p t cfg) depth
        14

  handle_history_request_message-Keeps :
      (fd : ℤ) (root : Node) → Keeps I (handle_history_request_message p cfg fd root)
  unfolding handle_history_request_message
  handle_history_request_message-Keeps fd root =
      search
        (keeps_rules, send_error-Keeps p, current_restore_before_id-Keeps p, relay_request-Keeps)
        depth 14

  report_relay-Keeps : (fd : ℤ) (ret : EspErr) → Keeps I (report_relay p cfg fd ret)
  unfolding report_relay
  report_relay-Keeps fd ret =
      search (keeps_rules, send_error-Keeps p, broadcast_online_users-Keeps p t) depth 14

  relay_response-Keeps :
      (fd : ℤ) (root : Node) (to : Option Node) → Keeps I (relay_response p cfg fd root to)
  unfolding relay_response
  relay_response-Keeps fd root to =
      search
        (keeps_rules, send_error-Keeps p, relay_payload_to_targets-Keeps p t, report_relay-Keeps)
        depth 14

  check_response-Keeps :
      (fd : ℤ) (root message : Node) → Keeps I (check_response p cfg fd root message)
  unfolding check_response
  check_response-Keeps fd root message =
      search
        (keeps_rules, send_error-Keeps p, current_restore_before_id-Keeps p, relay_response-Keeps)
        depth 14

  handle_history_response_message-Keeps :
      (fd : ℤ) (root : Node) → Keeps I (handle_history_response_message p cfg fd root)
  unfolding handle_history_response_message
  handle_history_response_message-Keeps fd root =
      search
        (
          keeps_rules,
          send_error-Keeps p,
          validate_to_object-Keeps p,
          validate_history_message_object-Keeps p,
          check_response-Keeps,
        )
        depth 24

  handle_pong-Keeps : (fd : ℤ) (root : Node) → Keeps I (handle_pong p cfg fd root)
  unfolding handle_pong
  handle_pong-Keeps fd root =
      search (keeps_rules, require_joined_identity-Keeps p t, mark_alive-Keeps p t) depth 14

  refuse_type-Keeps : (fd : ℤ) → Keeps I (refuse_type p cfg fd)
  unfolding refuse_type
  refuse_type-Keeps fd =
      search (keeps_rules, is_joined-Keeps p t, send_error-Keeps p, send_error_and_close-Keeps p t)
        depth 14

module _ (p : Platform) (cfg : Config) {I : AppContext → Type 0} (t : AllowsTable I)
    (s : AllowsStore I) where
  open p use {Env, Node}

  synchronise-Keeps : (fd : ℤ) (since_id : ℕ) → Keeps I (synchronise p cfg fd since_id)
  unfolding synchronise
  synchronise-Keeps fd since_id =
      search
        (
          keeps_rules,
          send_to_client-Keeps p t,
          send_info_to_client-Keeps p,
          send_online_users_to_client-Keeps p,
          close_client-Keeps p t,
          announce_if-Keeps p t cfg,
        )
        depth 14

  module _ (u : Bytes) (named : is_empty u ≡ false) (short : length u ≤ max_user_id_len) where
    join_now-Keeps :
        (fd : ℤ) (root : Node) (since_id : ℕ) (name : Option Bytes)
        → Keeps I (join_now p cfg fd root since_id (some u) name)
    unfolding join_now
    join_now-Keeps fd root since_id name =
        Keeps-bind _ _ (update_identity-Keeps p t fd u name named short) (λ updated.
          Keeps-if (not updated) _ _
            (λ z.
              send_error_and_close-Keeps p t fd "not_registered"
                "WebSocket client slot was not found")
            (λ z.
              Keeps-bind _ _ (update_time_sample-Keeps p t fd root)
                (λ sampled. synchronise-Keeps fd since_id)))

    join_as-Keeps :
        (fd : ℤ) (root : Node) (since_id : ℕ) (name : Option Bytes)
        → Keeps I (join_as p cfg fd root since_id (some u) name)
    unfolding join_as
    join_as-Keeps fd root since_id name =
        Keeps-bind _ _ (check_identity-Keeps p t fd (some u)) (λ identity.
          Keeps-if (is_mismatch identity) _ _
            (λ z.
              send_error_and_close-Keeps p t fd "bad_identity"
                "Join identity cannot change on an open connection")
            (λ z. Keeps-bind _ _ (ensure_id_state-Keeps p s) (λ ready.
              Keeps-if (not (is_ok ready)) _ _
                (λ z.
                  send_error_and_close-Keeps p t fd "server_busy"
                    "Message ID storage is temporarily unavailable")
                (λ z. join_now-Keeps fd root since_id name))))

  -- The user id of a join that passes the checks is a user id.
  join_checked-Keeps :
      (fd : ℤ) (root : Node) (since_id : ℕ) (from : Option Node) (name : Option Bytes)
      → valid_user p from ≡ true
      → Keeps I (join_as p cfg fd root since_id (text_of_item p from) name)
  join_checked-Keeps fd root since_id from name v =
      let (u, e, named, short) = valid_user-named p from v in
      subst (λ user. Keeps I (join_as p cfg fd root since_id user name)) (sym e)
        (join_as-Keeps u named short fd root since_id name)

  handle_join_message-Keeps : (fd : ℤ) (root : Node) → Keeps I (handle_join_message p cfg fd root)
  unfolding handle_join_message
  handle_join_message-Keeps fd root =
      Keeps-if
        (not (valid_user p (p.get_item root "from")) || not (valid_name p (p.get_item root "name")))
        _ _
        (λ bad.
          send_error_and_close-Keeps p t fd "bad_join" "Join requires valid from and name fields")
        (λ good.
          Keeps-on_option (parse_since_id p root) _ _
            (send_error_and_close-Keeps p t fd "bad_since_id"
              "since_id must be a safe non-negative integer")
            (λ since_id e.
              join_checked-Keeps fd root since_id (p.get_item root "from") _ (ground arith)))

  store_and_broadcast-Keeps : (fd : ℤ) (root : Node) → Keeps I (store_and_broadcast p cfg fd root)
  unfolding store_and_broadcast
  store_and_broadcast-Keeps fd root =
      search
        (
          keeps_rules,
          finalize_and_store_message-Keeps p s,
          send_error-Keeps p,
          broadcast-Keeps p t,
          broadcast_info-Keeps p t,
          announce_if-Keeps p t cfg,
        )
        depth 14

  target_and_store-Keeps :
      (fd : ℤ) (root : Node) (code message : String)
      → Keeps I (target_and_store p cfg fd root code message)
  unfolding target_and_store
  target_and_store-Keeps fd root code message =
      search
        (keeps_rules, validate_to_object-Keeps p, send_error-Keeps p, store_and_broadcast-Keeps)
        depth 14

  handle_chat_message-Keeps : (fd : ℤ) (root : Node) → Keeps I (handle_chat_message p cfg fd root)
  unfolding handle_chat_message
  handle_chat_message-Keeps fd root =
      search (keeps_rules, send_error-Keeps p, target_and_store-Keeps) depth 14

  handle_as_joined-Keeps :
      (fd : ℤ) (root : Node) (type : Option Bytes) → Keeps I (handle_as_joined p cfg fd root type)
  unfolding handle_as_joined
  handle_as_joined-Keeps fd root type =
      search
        (
          keeps_rules,
          require_joined_identity-Keeps p t,
          send_online_users_to_client-Keeps p,
          handle_chat_message-Keeps,
          handle_history_request_message-Keeps p cfg t,
          handle_history_response_message-Keeps p cfg t,
          send_error-Keeps p,
        )
        depth 24

  pub handle_json-Keeps : (fd : ℤ) (root : Node) → Keeps I (handle_json p cfg fd root)
  unfolding handle_json
  handle_json-Keeps fd root =
      search
        (
          keeps_rules,
          refuse_type-Keeps p cfg t,
          handle_pong-Keeps p cfg t,
          handle_join_message-Keeps,
          handle_as_joined-Keeps,
        )
        depth 14
