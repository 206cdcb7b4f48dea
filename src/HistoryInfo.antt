-- ===== src/HistoryInfo.antt =====
-- What main/src/chat/history.c tells a client about the history, and the cursor that a client sends.
use esp32_web_chat.Common.{ℕ, Bool, true, false, Option, none, some, Bytes, codes, if◌then◌else◌}
use esp32_web_chat.Common.Int.{ℤ, pos}
use esp32_web_chat.Config.{HistoryBounds}
use esp32_web_chat.History.{fill_bounds}
use esp32_web_chat.Platform.{
  Platform, Run, message_mutex, EspErr, err_no_mem, is_ok, ◌>>=◌, done, call, get_ctx, locked,
  on_option,
}
use esp32_web_chat.Clock.{current_timestamp_s}
use esp32_web_chat.Server.{add, send_text, send_error, broadcast}
use esp32_web_chat.Json.{safe_integer}

-- `first != NULL ? first : second`
abbrev pub or_second : {A : Type 0} → Option A → Option A → Option A
or_second none second = second
or_second (some a) second = some a

module _ (p : Platform) where
  open p use {
    Env, Node, get_item, create_object, add_string, add_number, add_bool, add_object, add_array,
    set_item, print_unformatted,
  }

  -- chat_history_parse_since_id: `none` where it returns false, and 0 where there is no cursor.
  unfoldable pub parse_since_id : Node → Option ℕ
  unfolding safe_integer
  parse_since_id root = elim (or_second (get_item root "since_id") (get_item root "last_seen_id")) [
    | none ↦ some 0
    | some since_id ↦ safe_integer p 0 (some since_id)
  ]

  -- The fields that chat_history_build_info_payload takes from the bounds, and the text.
  unfoldable pub add_bounds : HistoryBounds → Node → Run Env (Option Bytes)
  add_bounds b root0 = do
    root1 ← add p (λ n. add_number n "boot_start_id" (pos b.boot_start_id)) root0
    root2 ← add p (λ n. add_number n "current_id" (pos b.current_id)) root1
    root3 ← add p (λ n. add_number n "earliest_id" (pos b.earliest_id)) root2
    root4 ← add p (λ n. add_number n "latest_id" (pos b.latest_id)) root3
    root5 ← add p (λ n. add_number n "restore_before_id" (pos b.restore_before_id)) root4
    root6 ← add p (λ n. add_number n "count" (pos b.count)) root5
    root7 ← add p (λ n. add_number n "capacity" (pos b.capacity)) root6
    root8 ← add p (λ n. add_bool n "has_more_before" b.has_more_before) root7
    call (print_unformatted root8)

  -- The bounds, `none` where the mutex is not given.
  unfoldable pub read_bounds : Run Env (Option HistoryBounds)
  unfolding fill_bounds
  read_bounds =
      locked p message_mutex none (do ctx ← get_ctx; done (some (fill_bounds ctx.messages)))

  -- chat_history_build_info_payload, for the interval HEARTBEAT_INTERVAL_S.
  unfoldable pub build_info_payload : ℕ → Run Env (Option Bytes)
  unfolding add_bounds read_bounds
  build_info_payload interval = do
    created ← call create_object
    on_option created (done none) λ root0. do
      root1 ← add p (λ n. add_string n "type" (codes "historyInfo")) root0
      root2 ← add p (λ n. add_string n "from" (codes "server")) root1
      now ← current_timestamp_s p
      root3 ← add p (λ n. add_number n "timestamp" now) root2
      root4 ← add p (λ n. add_number n "heartbeat_interval_s" (pos interval)) root3
      with_to ← call (add_object root4 "to")
      on_option with_to (done none) λ made. do
        with_users ← call (add_array made.1 "users")
        on_option with_users (done none) λ to. do
          to' ← add p (λ n. add_bool n "all" true) to.0
          bounds ← read_bounds
          on_option bounds (done none) λ b. add_bounds b (set_item made.0 "to" to')

  -- chat_history_send_info_to_client.
  unfoldable pub send_info_to_client : ℕ → ℤ → Run Env EspErr
  unfolding build_info_payload send_text send_error
  send_info_to_client interval fd = do
    built ← build_info_payload interval
    on_option built
        (do
          ret ← send_error p fd "server_busy" "History boundary is temporarily unavailable"
          done (if is_ok ret then err_no_mem else ret))
        (λ payload. send_text p fd payload)

  -- chat_history_broadcast_info.
  unfoldable pub broadcast_info : ℕ → Run Env Bool
  unfolding build_info_payload broadcast
  broadcast_info interval = do
    built ← build_info_payload interval
    on_option built (done false) λ payload. broadcast p payload
