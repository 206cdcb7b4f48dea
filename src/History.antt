-- ===== src/History.antt =====
-- The message ring of main/src/chat/history.c: what its functions do with the message fields of
-- app_context_t while they hold `message_mutex`. The list is the array, of MAX_MESSAGES entries.
pub mod Ring
pub mod Bounds
pub mod Select
pub mod Scan
use esp32_web_chat.Common.{
  ℕ, zero, suc, ◌+◌, ◌%◌, ◌^◌, Bool, true, false, ◌&&◌, ◌||◌, Option, none, some, List, [], ◌∷◌,
  Bytes, ltb, leb, ◌==◌, if◌then◌else◌, is_none, not, set, length, replicate,
}
use esp32_web_chat.Config.{Message, HistoryBounds, max_safe_id}

-- The fields of app_context_t that `message_mutex` protects.
pub record MessageStore : Type 0 where
  pub message_buffer : List Message
  pub message_id_counter : ℕ
  pub message_id_counter_valid : Bool
  pub boot_start_id : ℕ
  pub message_buffer_head : ℕ

-- An entry after `memset`.
abbrev pub no_message : Message
no_message = record { payload = none; id = 0 }

abbrev pub is_filled : Message → Bool
is_filled m = not (is_none m.payload)

-- One round of the loop of chat_history_fill_bounds_locked.
unfoldable pub widen : HistoryBounds → Message → HistoryBounds
widen b m = if is_none m.payload then b else record b {
  earliest_id = if b.count == 0 || ltb m.id b.earliest_id then m.id else b.earliest_id;
  latest_id = if ltb b.latest_id m.id then m.id else b.latest_id;
  count = b.count + 1;
}

unfoldable pub widen_all : HistoryBounds → List Message → HistoryBounds
widen_all b [] = b
widen_all b (m ∷ ms) = widen_all (widen b m) ms

abbrev pub empty_bounds : HistoryBounds
empty_bounds = record {
  boot_start_id = 0;
  current_id = 0;
  earliest_id = 0;
  latest_id = 0;
  restore_before_id = 0;
  count = 0;
  capacity = 0;
  has_more_before = false;
}

-- What stands in the bounds before the loop; MAX_MESSAGES is the length of the array.
unfoldable pub start_bounds : MessageStore → HistoryBounds
start_bounds st = record empty_bounds {
  boot_start_id = st.boot_start_id;
  current_id = st.message_id_counter;
  capacity = length st.message_buffer;
}

-- The two fields that are set after the loop.
unfoldable pub finish_bounds : HistoryBounds → HistoryBounds
finish_bounds b =
    let restore = if ltb 0 b.count then b.earliest_id else b.boot_start_id in
    record b { restore_before_id = restore; has_more_before = ltb 1 restore }

-- chat_history_fill_bounds_locked.
unfoldable pub fill_bounds : MessageStore → HistoryBounds
unfolding start_bounds finish_bounds
fill_bounds st = finish_bounds (widen_all (start_bounds st) st.message_buffer)

-- The tail of chat_history_finalize_and_store_message: the payload takes the place of the oldest
-- message. The index and the array's bound are those of the C code.
unfoldable pub push_message : Bytes → ℕ → MessageStore → MessageStore
push_message payload id st = record st {
  message_id_counter = id;
  message_buffer =
      set st.message_buffer st.message_buffer_head (record { payload = some payload; id = id });
  message_buffer_head = (st.message_buffer_head + 1) % length st.message_buffer;
}

-- `ctx->message_id_counter + 1` as a uint64_t.
abbrev pub next_id : MessageStore → ℕ
next_id st = (st.message_id_counter + 1) % 2 ^ 64

-- The test of chat_history_send_to_client for a message to replay.
abbrev pub is_candidate : ℕ → ℕ → Message → Bool
is_candidate cursor until m = not (is_none m.payload) && ltb cursor m.id && leb m.id until

-- `next == NULL || candidate->id < next->id`.
abbrev pub is_better : Option Message → Message → Bool
is_better none m = true
is_better (some n) m = ltb m.id n.id

-- The inner loop of chat_history_send_to_client.
unfoldable pub next_message : ℕ → ℕ → Option Message → List Message → Option Message
next_message cursor until next [] = next
next_message cursor until next (m ∷ ms) =
    next_message cursor until
      (if is_candidate cursor until m && is_better next m then some m else next) ms
