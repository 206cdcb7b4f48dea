-- ===== src/Messages.antt =====
-- Storing and replaying messages: main/src/chat/history.c with its locks, NVS and sends.
pub mod Replay
pub mod Store
pub mod Reboot
use esp32_web_chat.Common.{
  ℕ, zero, suc, Bool, true, false, not, ◌||◌, Option, none, some, List, [], Bytes, ltb, leb, ◌==◌,
  if◌then◌else◌, length,
}
use esp32_web_chat.Common.Int.{ℤ, pos}
use esp32_web_chat.Config.{Message, max_safe_id}
use esp32_web_chat.History.{MessageStore, push_message, next_id, next_message, fill_bounds}
use esp32_web_chat.Platform.{
  Platform, Run, World, AppContext, message_mutex, EspErr, esp_ok, err_no_mem, err_timeout,
  err_invalid_state, err_invalid_size, is_ok, ◌>>=◌, ◌>>◌, done, call, tell, get_ctx, put_ctx,
  modify_ctx, locked,
}
use esp32_web_chat.Clock.{current_timestamp_s}
use esp32_web_chat.IdStore.{IdState, load, persist}
use esp32_web_chat.Server.{send_text, send_error, close_client}

-- What a round of the replay finds under the mutex.
pub data Picked : Type 0 where
  no_mutex : Picked
  picked : ℕ → Option Bytes → Picked

module _ (p : Platform) where
  open p use {Env, Node, copy_text, add_number, delete_item, print_unformatted}

  -- chat_history_current_restore_before_id: without the mutex, the boundary of this boot.
  unfoldable pub current_restore_before_id : Run Env ℕ
  current_restore_before_id w =
      locked p message_mutex w.ctx.messages.boot_start_id
        (do ctx ← get_ctx; done (fill_bounds ctx.messages).restore_before_id) w

  -- ensure_id_state_locked.
  unfoldable pub ensure_id_state_locked : Run Env EspErr
  unfolding load
  ensure_id_state_locked = do
    ctx ← get_ctx
    elim (ctx.messages.message_id_counter_valid) [
      | true ↦ done esp_ok
      | false ↦ do
        r ← load p
        elim (r.1.counter_loaded) [
          | false ↦ done (if is_ok r.0 then err_invalid_state else r.0)
          | true ↦ do
            modify_ctx λ c. record c {
              messages = record (c.messages) {
                message_id_counter = r.1.current_id;
                boot_start_id = r.1.boot_start_id;
                message_id_counter_valid = true;
              };
            }
            done esp_ok
        ]
    ]

  -- chat_history_ensure_id_state.
  unfoldable pub ensure_id_state : Run Env EspErr
  unfolding ensure_id_state_locked
  ensure_id_state = locked p message_mutex err_timeout ensure_id_state_locked

  -- From the test of `payload` on: persist the id, then publish the message in the ring.
  unfoldable pub publish : Option Bytes → ℕ → Run Env (EspErr × Option Bytes)
  unfolding persist push_message
  publish none id = done (err_no_mem, none)
  publish (some payload) id = do
    ctx ← get_ctx
    ret ← persist p id ctx.messages.boot_start_id
    elim (is_ok ret) [
      | false ↦ done (ret, none)
      | true ↦ do
        modify_ctx λ c. record c { messages = push_message payload id c.messages }
        done (esp_ok, some payload)
    ]

  -- Setting the id and the timestamp of the object: `none` where memory runs out.
  unfoldable pub stamp : ℕ → ℤ → Node → Run Env (Option Node)
  stamp id timestamp root = do
    a ← call (add_number (delete_item (delete_item root "id") "timestamp") "id" (pos id))
    elim a [ none ↦ done none | some root' ↦ call (add_number root' "timestamp" timestamp) ]

  -- The rest, once the id and the timestamp are known.
  unfoldable pub commit : ℕ → ℤ → Node → Run Env (EspErr × Option Bytes)
  unfolding stamp publish
  commit id timestamp root = do
    stamped ← stamp id timestamp root
    elim stamped [
      | none ↦ done (err_no_mem, none)
      | some root' ↦ do payload ← call (print_unformatted root'); publish payload id
    ]

  -- From the test of the counter on.
  unfoldable pub store_locked : Node → Run Env (EspErr × Option Bytes)
  unfolding commit current_timestamp_s
  store_locked root = do
    ctx ← get_ctx
    elim (leb max_safe_id ctx.messages.message_id_counter) [
      | true ↦ done (err_invalid_size, none)
      | false ↦ do timestamp ← current_timestamp_s p; commit (next_id ctx.messages) timestamp root
    ]

  -- chat_history_finalize_and_store_message while it holds the mutex.
  unfoldable pub finalize_locked : Node → Run Env (EspErr × Option Bytes)
  unfolding ensure_id_state_locked store_locked
  finalize_locked root = do
    ret ← ensure_id_state_locked
    elim (is_ok ret) [ false ↦ done (ret, none) | true ↦ store_locked root ]

  -- chat_history_finalize_and_store_message: its result and `*payload_out`.
  unfoldable pub finalize_and_store_message : Node → Run Env (EspErr × Option Bytes)
  unfolding finalize_locked
  finalize_and_store_message root =
      locked p message_mutex (err_timeout, none) (finalize_locked root)

  -- The locked part of a round of chat_history_send_to_client: `next_id`, 0 where there is no
  -- message, and the copy of its payload.
  unfoldable pub pick_locked : ℕ → ℕ → Run Env Picked
  unfolding next_message
  pick_locked cursor until = do
    ctx ← get_ctx
    elim (next_message cursor until none ctx.messages.message_buffer) [
      | none ↦ done (picked 0 none)
      | some m ↦ elim (m.payload) [
        | none ↦ done (picked m.id none)
        | some text ↦ do payload ← call (copy_text text); done (picked m.id payload)
      ]
    ]

  -- The rest of a round of its loop; `continue` is the loop from the next cursor on.
  unfoldable pub send_found : ℤ → (ℕ → Run Env EspErr) → Picked → Run Env EspErr
  unfolding send_text send_error close_client
  send_found fd continue no_mutex = done err_timeout
  send_found fd continue (picked next payload) = elim (next == 0) [
    | true ↦ done esp_ok
    | false ↦ elim payload [
      | none ↦ do
        ret ← send_error p fd "server_busy" "Message history is temporarily unavailable"
        done (if is_ok ret then err_no_mem else ret)
      | some text ↦ do
        ret ← send_text p fd text
        elim (is_ok ret) [ true ↦ continue next | false ↦ do close_client p fd; done ret ]
    ]
  ]

  -- The loop of chat_history_send_to_client, with the rounds left.
  unfoldable pub replay : ℤ → ℕ → ℕ → ℕ → Run Env EspErr
  unfolding pick_locked send_found
  replay fd until zero cursor = done esp_ok
  replay fd until (suc rounds) cursor = elim (ltb cursor until) [
    | false ↦ done esp_ok
    | true ↦ do
      found ← locked p message_mutex no_mutex (pick_locked cursor until)
      send_found fd (λ next. replay fd until rounds next) found
  ]

  -- Its start: the messages, none where the mutex is not given.
  unfoldable pub read_messages : Run Env (Option MessageStore)
  read_messages = locked p message_mutex none (do ctx ← get_ctx; done (some ctx.messages))

  -- chat_history_send_to_client; MAX_MESSAGES is the length of the array.
  unfoldable pub send_to_client : ℤ → ℕ → Run Env EspErr
  unfolding replay read_messages
  send_to_client fd since_id = do
    until ← read_messages
    elim until [
      | none ↦ done err_timeout
      | some ms ↦ replay fd ms.message_id_counter (length ms.message_buffer) since_id
    ]
