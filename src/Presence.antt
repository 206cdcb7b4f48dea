-- ===== src/Presence.antt =====
-- The list of online users of main/src/chat/sessions.c: its payload, and who sends it when.
pub mod Queue
use Prim.Native.String.{String}
use esp32_web_chat.Common.{
  ℕ, zero, suc, ◌+◌, Bool, true, false, not, ◌&&◌, ◌||◌, Option, none, some, List, [], ◌∷◌, Bytes,
  codes, is_empty, length, if◌then◌else◌,
}
use esp32_web_chat.Common.Int.{ℤ, pos}
use esp32_web_chat.Config.{ClientSlot}
use esp32_web_chat.Slots.{Slots, is_open}
use esp32_web_chat.Platform.{
  Platform, Run, World, AppContext, client_mutex, EspErr, err_no_mem, is_ok, ◌>>=◌, ◌>>◌, done,
  call, get_ctx, locked, on_option,
}
use esp32_web_chat.Clock.{current_timestamp_s}
use esp32_web_chat.Server.{add, send_text, send_error, broadcast}

-- Whether a client stands on the list.
abbrev pub is_listed : ClientSlot → Bool
is_listed s = is_open s && s.joined && not (is_empty s.user_id)

-- `name[0] ? name : "New User"`
abbrev pub shown_name : ClientSlot → Bytes
shown_name s = if is_empty s.name then codes "New User" else s.name

module _ (p : Platform) where
  open p use {
    Env, Node, create_object, create_string, add_string, add_number, add_bool, add_object,
    add_array, add_item_to_array, set_item, print_unformatted,
  }

  -- cJSON_AddItemToArray of an item that may be NULL.
  abbrev pub append_to : Node → Option Node → Node
  append_to array none = array
  append_to array (some item) = add_item_to_array array item

  -- What the loop adds to `users` and to `data` for a client on the list.
  unfoldable pub add_user : ClientSlot → Node × Node → Run Env (Node × Node)
  add_user s (users, entries) = do
    id ← call (create_string s.user_id)
    created ← call create_object
    on_option created (done (append_to users id, entries)) λ entry0. do
      entry1 ← add p (λ n. add_string n "id" s.user_id) entry0
      entry2 ← add p (λ n. add_string n "name" (shown_name s)) entry1
      done (append_to users id, add_item_to_array entries entry2)

  unfoldable pub add_users : Slots → Node × Node → Run Env (Node × Node)
  unfolding add_user
  add_users [] lists = done lists
  add_users (s ∷ ss) lists = do
    next ← if is_listed s then add_user s lists else done lists
    add_users ss next

  -- chat_sessions_build_online_users_payload, once the containers are there: the loop under the
  -- mutex, and the text.
  unfoldable pub fill_and_print : Node → Node → Node → Node → Run Env (Option Bytes)
  unfolding add_users
  fill_and_print root to users entries = do
    to' ← add p (λ n. add_bool n "all" true) to
    lists ←
        locked p client_mutex (users, entries)
          (do ctx ← get_ctx; add_users ctx.client_slots (users, entries))
    call (
        print_unformatted
          (set_item (set_item root "to" (set_item to' "users" lists.0)) "data" lists.1))

  -- `to ? cJSON_AddArrayToObject(to, "users") : NULL`
  abbrev pub add_users_array : Option (Node × Node) → Run Env (Option (Node × Node))
  add_users_array with_to = on_option with_to (done none) λ made. call (add_array made.1 "users")

  -- The root after `to` was added, where it was.
  abbrev pub root_of : Node → Option (Node × Node) → Node
  root_of root none = root
  root_of root (some made) = made.0

  unfoldable pub build_online_users_payload : Run Env (Option Bytes)
  unfolding fill_and_print
  build_online_users_payload = do
    created ← call create_object
    on_option created (done none) λ root0. do
      root1 ← add p (λ n. add_string n "type" (codes "onlineUsers")) root0
      root2 ← add p (λ n. add_string n "from" (codes "server")) root1
      now ← current_timestamp_s p
      root3 ← add p (λ n. add_number n "timestamp" now) root2
      with_to ← call (add_object root3 "to")
      with_users ← add_users_array with_to
      with_entries ← call (add_array (root_of root3 with_to) "data")
      on_option with_users (done none)
          λ to. on_option with_entries (done none) λ root4. fill_and_print root4.0 to.0 to.1 root4.1

  -- broadcast_online_users_now, with the attempts left.
  unfoldable pub broadcast_attempts : ℕ → Bool → Run Env Bool
  unfolding build_online_users_payload broadcast
  broadcast_attempts zero any_closed = done any_closed
  broadcast_attempts (suc attempts) any_closed = do
    built ← build_online_users_payload
    on_option built (done any_closed) λ payload. do
      closed_client ← broadcast p payload
      if closed_client then broadcast_attempts attempts true else done any_closed

  -- MAX_CLIENTS is the length of the table.
  unfoldable pub broadcast_online_users_now : Run Env Bool
  unfolding broadcast_attempts
  broadcast_online_users_now = do
    ctx ← get_ctx
    broadcast_attempts (length ctx.client_slots + 1) false

  -- chat_sessions_send_online_users_to_client.
  unfoldable pub send_online_users_to_client : ℤ → Run Env EspErr
  unfolding build_online_users_payload send_text send_error
  send_online_users_to_client fd = do
    built ← build_online_users_payload
    on_option built
        (do
          ret ← send_error p fd "server_busy" "Unable to build online user list"
          done (if is_ok ret then err_no_mem else ret))
        (λ payload. send_text p fd payload)
