-- ===== src/Tests/Store.antt =====
-- The message ring, its replay and the text check on small inputs.
use Prim.Native.String.{String}
use esp32_web_chat.Common.{
  ℕ, zero, suc, ltb, get_elem?, ◌≤◌, length, ◌≡◌, ◌<◌, refl, true, false, Option, none, some, [],
  ◌∷◌, Bytes, arith, ◌⊎◌, ◌↔◌, codes, ◌==◌,
}
use esp32_web_chat.Common.Int.{ℤ, pos, negsuc}
use esp32_web_chat.Config.{Config, Message, max_safe_id}
use esp32_web_chat.Utf8.{valid_utf8, step}
use esp32_web_chat.Utf8.Decode.{valid_utf8_iff_Encodes, Encodes}
use esp32_web_chat.History.{MessageStore, no_message, push_message, fill_bounds, next_message}
use esp32_web_chat.History.Ring.{Holds, remember, push-Holds}
use esp32_web_chat.History.Bounds.{fill_bounds_lem}
use esp32_web_chat.History.Select.{after, first}
use esp32_web_chat.History.Scan.{next_message-after}
use esp32_web_chat.Platform.{SendResult, wrote, Platform, World, EspErr, esp_ok, is_ok, text_frame}
use esp32_web_chat.Tests.Json.{
  Tree, text, number, boolean, array, object, leaf, key, kind_is_object, kind_is_array,
  kind_is_text, kind_is_number, kind_is_boolean, holds, text_of, number_of, items, lookup, insert,
  insert_into, without, replace, print,
}
use esp32_web_chat.JsonScan.{may_parse, scan_byte, outside}
use esp32_web_chat.JsonScan.Depth.{IsNested, may_parse-IsNested}
use esp32_web_chat.Dns.{reply}
use esp32_web_chat.Dns.Reply.{reply-keeps_query}
use esp32_web_chat.Settings
use esp32_web_chat.Settings.{reset_to_defaults}
use esp32_web_chat.Settings.Valid.{IsUsable, Fits, load-IsUsable}
use esp32_web_chat.Messages.{send_to_client, finalize_and_store_message}
use esp32_web_chat.Messages.Store.{finalize-Holds}
use esp32_web_chat.Messages.Replay.{Grants, wire, send_to_client-replays}

valid_utf8_iff_Encodes_example :
    (valid_utf8 (0xe2 ∷ 0x82 ∷ 0xac ∷ []) ≡ true) ↔ Encodes (0xe2 ∷ 0x82 ∷ 0xac ∷ [])
valid_utf8_iff_Encodes_example = valid_utf8_iff_Encodes (0xe2 ∷ 0x82 ∷ 0xac ∷ []) (ground arith)

-- A surrogate, and a sequence that is cut short.
bad_utf8 : (valid_utf8 (0xed ∷ 0xa0 ∷ 0x80 ∷ []) ≡ false) × (valid_utf8 (0xe2 ∷ 0x82 ∷ []) ≡ false)
unfolding valid_utf8 step
bad_utf8 = (refl, refl)

-- A ring of two places; the ids start after 7.
abbrev empty_store : MessageStore
empty_store = record {
  message_buffer = no_message ∷ no_message ∷ [];
  message_id_counter = 7;
  message_id_counter_valid = true;
  boot_start_id = 8;
  message_buffer_head = 0;
}

empty_store-Holds : Holds [] empty_store
empty_store-Holds = record { inside = omega arith; gap = 2; lo = 7; order = refl; run = refl }

abbrev one : Message
one = record { payload = some (49 ∷ []); id = 8 }

abbrev two : Message
two = record { payload = some (50 ∷ []); id = 9 }

abbrev full_store : MessageStore
full_store = record empty_store { message_buffer = one ∷ two ∷ []; message_id_counter = 9 }

full_store-Holds : Holds (one ∷ two ∷ []) full_store
full_store-Holds = record {
  inside = omega arith;
  gap = 0;
  lo = 7;
  order = refl;
  run = (refl, refl, (refl, refl, refl));
}

push-Holds_example :
    Holds
      (remember 2 (record { payload = some (51 ∷ []); id = 10 }) (one ∷ two ∷ []))
      (push_message (51 ∷ []) 10 full_store)
push-Holds_example = push-Holds (51 ∷ []) full_store (one ∷ two ∷ []) full_store-Holds

fill_bounds_lem_example : fill_bounds full_store ≡ record {
  boot_start_id = 8;
  current_id = 9;
  earliest_id = 8;
  latest_id = 9;
  restore_before_id = 8;
  count = 2;
  capacity = 2;
  has_more_before = true;
}
fill_bounds_lem_example = fill_bounds_lem full_store (one ∷ two ∷ []) full_store-Holds

next_message-after_example :
    next_message 8 9 none (one ∷ two ∷ []) ≡ first (after 8 (one ∷ two ∷ []))
next_message-after_example = next_message-after 8 full_store (one ∷ two ∷ []) full_store-Holds

abbrev magnitude : ℤ → ℕ
magnitude (pos n) = n
magnitude (negsuc n) = 0

abbrev one_byte : ℕ → ℤ × Bytes
one_byte zero = (pos 0, [])
one_byte (suc n) = (pos 1, 1 ∷ [])

-- A platform on which every call succeeds, over JSON trees and a flash memory of type S.
-- The last two arguments are the clock and the socket.
abbrev pub over_link :
    (S : Type 0)
    → (S → ℕ)
    → (String → ℕ → S → S)
    → (S → S)
    → (S → ℕ × S)
    → (Bytes → S → SendResult × S)
    → Platform
over_link S get put_u64 keep clock put_bytes = record {
  Env = S;
  take = λ lock e. (true, e);
  take_20_ms = λ lock e. (true, e);
  give = λ lock e. e;
  current_task = λ e. 1;
  timer_us = clock;
  epoch_s = λ e. (pos 0, e);
  is_websocket = λ fd e. true;
  send_data = λ fd t e. (esp_ok, e);
  send_frame_async = λ fd t e. (esp_ok, e);
  trigger_close = λ fd e. (esp_ok, e);
  queue_work = λ work e. (esp_ok, e);
  shutdown = λ fd e. e;
  copy_text = λ t e. (some t, e);
  Handle = Unit {0};
  nvs_open = λ name write e. (esp_ok, tt, e);
  nvs_get_u64 = λ h key e. (esp_ok, get e, e);
  nvs_set_u64 = λ h key value e. (esp_ok, put_u64 key value e);
  nvs_get_str = λ h key size t e. (esp_ok, t, e);
  nvs_set_str = λ h key value e. (esp_ok, e);
  nvs_get_u8 = λ h key e. (esp_ok, 6, e);
  nvs_set_u8 = λ h key value e. (esp_ok, e);
  nvs_commit = λ h e. (esp_ok, keep e);
  nvs_close = λ h e. e;
  Node = Tree;
  create_object = λ e. (some (object [] leaf), e);
  create_string = λ t e. (some (text [] t), e);
  add_string = λ n key value e. (some (insert n (text (codes key) value)), e);
  add_number = λ n key value e. (some (insert n (number (codes key) (magnitude value))), e);
  add_bool = λ n key value e. (some (insert n (boolean (codes key) value)), e);
  add_object = λ n key e. (insert_into n (object (codes key) leaf), e);
  add_array = λ n key e. (insert_into n (array (codes key) leaf), e);
  add_item_to_array = insert;
  set_item = replace;
  delete_item = without;
  get_item = lookup;
  key_of = λ n. some (key n);
  value_string = text_of;
  children = items;
  is_object = kind_is_object;
  is_array = kind_is_array;
  is_string = kind_is_text;
  is_number = kind_is_number;
  is_bool = kind_is_boolean;
  is_true = holds;
  Double = ℕ;
  value_double = number_of;
  is_below = λ d bound. ltb d bound;
  is_above = λ d bound. ltb bound d;
  is_same = λ d n. d == n;
  truncate = λ d. pos d;
  to_uint64 = λ d. d;
  parse = λ t e. (some (text [] t, length t), e);
  probe_frame = λ fd e. ((esp_ok, record { type = text_frame; len = 3; final = true }), e);
  receive_frame = λ fd size e. ((esp_ok, 1 ∷ 2 ∷ 3 ∷ []), e);
  allocate = λ size e. (true, e);
  close_socket = λ fd e. e;
  print_unformatted = λ n e. (some (print n), e);
  get_item_any_case = lookup;
  value_int = λ n. pos (number_of n);
  request_recv = λ size e. (one_byte size, e);
  respond = λ t e. (esp_ok, e);
  respond_error = λ t e. e;
  restart_soon = λ e. e;
  send = λ fd t e. put_bytes t e;
}

-- The same with a clock that stands still and a socket that takes everything.
abbrev pub over : (S : Type 0) → (S → ℕ) → (String → ℕ → S → S) → (S → S) → Platform
over S get put_u64 keep =
    over_link S get put_u64 keep (λ e. (3000000, e)) (λ t e. (wrote (length t), e))

abbrev pub ready : Platform
ready = over (Unit {0}) (λ e. 7) (λ key n e. e) (λ e. e)

abbrev pub world : World (Unit {0})
world = record {
  ctx = record {
    client_slots = [];
    presence_broadcast_pending = false;
    heartbeat_sweep_pending = false;
    last_heartbeat_sweep_s = pos 0;
    messages = full_store;
    settings = record { ssid = []; password = []; channel = 0; admin_password = [] };
    server = true;
    httpd_task_handle = none;
  };
  env = tt;
  frames = [];
}

ready-Grants : (fd : ℤ) → Grants ready fd
ready-Grants fd = record {
  takes = λ e. refl;
  copies = λ t e. refl;
  upgraded = λ e. refl;
  sends = λ t e. refl;
  sends_async = λ t e. refl;
}

send_to_client-replays_example :
    (let r : EspErr × World (Unit {0}) = send_to_client ready (pos 5) 7 world in
      (r.0 ≡ esp_ok)
      × (r.1.ctx ≡ world.ctx)
      × (r.1.frames ≡ wire (pos 5) (after 7 (one ∷ two ∷ [])) []))
send_to_client-replays_example =
    send_to_client-replays ready (pos 5) (ready-Grants (pos 5)) 7 world (one ∷ two ∷ [])
      full_store-Holds refl refl

-- A message that prints as "3".
abbrev root : Tree
root = text [] (51 ∷ [])

finalize-Holds_example :
    (let r : (EspErr × Option Bytes) × World (Unit {0}) =
        finalize_and_store_message ready root world in
      ((is_ok r.0.0 ≡ false) × (r.0.1 ≡ none) × (r.1.ctx.messages ≡ full_store))
      ⊎ ((payload : Bytes) × (r.0 ≡ (esp_ok, some payload))
          × (9 < max_safe_id)
          × Holds
              (remember 2 (record { payload = some payload; id = 10 }) (one ∷ two ∷ []))
              r.1.ctx.messages))
finalize-Holds_example = finalize-Holds ready root world (one ∷ two ∷ []) refl full_store-Holds

-- A build with an open network and no passwords, over a flash that is empty.
abbrev pub build : Config
build = record {
  wifi_ssid = [];
  wifi_password = [];
  admin_password = [];
  wifi_channel = 14;
  max_clients = 8;
  max_messages = 100;
  heartbeat_interval_s = 30;
  max_text_bytes = 1024;
  max_ws_payload_bytes = 4096;
  max_sta_conn = 4;
  lwip_max_sockets = some 16;
}

pub ready-Fits : Fits ready
ready-Fits = record { room = λ h key size text e l. l }

load-IsUsable_example : IsUsable (Settings.load ready build world).1.ctx.settings
load-IsUsable_example = load-IsUsable ready ready-Fits build world

-- {"a":"[\"["}: one pair of brackets, and a string that holds others.
abbrev payload : Bytes
payload = 123 ∷ 34 ∷ 97 ∷ 34 ∷ 58 ∷ 34 ∷ 91 ∷ 92 ∷ 34 ∷ 91 ∷ 34 ∷ 125 ∷ []

may_parse-IsNested_example : (valid_utf8 payload ≡ true) × IsNested 0 outside payload
unfolding may_parse scan_byte valid_utf8 step
may_parse-IsNested_example = may_parse-IsNested payload refl

-- A DNS header of 12 bytes, with the id 7.
abbrev query : Bytes
query = 0 ∷ 7 ∷ 1 ∷ 0 ∷ 0 ∷ 1 ∷ 0 ∷ 0 ∷ 0 ∷ 0 ∷ 0 ∷ 0 ∷ []

reply-keeps_query_example :
    (r : Bytes) × (reply (192 ∷ 168 ∷ 4 ∷ 1 ∷ []) query ≡ some r)
    × (length r ≡ 28)
    × (length r ≤ 256)
    × (get_elem? r 1 ≡ some 7)
reply-keeps_query_example =
    reply-keeps_query (192 ∷ 168 ∷ 4 ∷ 1 ∷ []) query 1 refl (omega arith) (omega arith)
      (omega arith) (omega arith) (omega arith) (omega arith) (omega arith)
