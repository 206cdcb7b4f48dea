-- ===== src/Platform.antt =====
-- What the program calls and does not define: FreeRTOS, the ESP-IDF timer, HTTP server and NVS,
-- the socket layer, malloc and cJSON. `Env` is all of their state; a call takes it and returns the
-- next one, so that two calls may answer differently. The shared app_context_t stands beside it,
-- with a record of what has been put on the wire.
pub mod Rules
pub mod Keeps
use Prim.Native.String.{String}
use esp32_web_chat.Common.{
  ℕ, ◌/◌, ◌-◌, Bool, true, false, Option, none, some, List, [], ◌∷◌, Bytes, if◌then◌else◌, ◌==◌,
}
use esp32_web_chat.Common.Int.{ℤ, pos}
use esp32_web_chat.Config.{ChatSettings}
use esp32_web_chat.Slots.{Slots}
use esp32_web_chat.History.{MessageStore}

-- esp_err_t, as far as the code tells its values apart.
pub data EspErr : Type 0 where
  esp_ok esp_fail err_no_mem err_invalid_arg err_invalid_state err_invalid_size : EspErr
  err_not_found err_timeout err_nvs_not_found : EspErr
  err_nvs_no_free_pages err_nvs_new_version_found : EspErr
  err_other : ℕ → EspErr

abbrev pub is_ok : EspErr → Bool
is_ok esp_ok = true
is_ok _ = false

-- `a == b ? x : y` on the code that the functions below compare with.
abbrev pub is_not_found : EspErr → Bool
is_not_found err_not_found = true
is_not_found _ = false

abbrev pub is_nvs_not_found : EspErr → Bool
is_nvs_not_found err_nvs_not_found = true
is_nvs_not_found _ = false

abbrev pub needs_erase : EspErr → Bool
needs_erase err_nvs_no_free_pages = true
needs_erase err_nvs_new_version_found = true
needs_erase _ = false

pub data Lock : Type 0 where
  client_mutex message_mutex : Lock

-- The functions that are handed to httpd_queue_work.
pub data Work : Type 0 where
  presence_broadcast heartbeat_sweep : Work

-- The types of frames that the code tells apart, and the header of a received one.
pub data FrameType : Type 0 where
  text_frame close_frame pong_frame other_frame : FrameType

pub record FrameHead : Type 0 where
  pub type : FrameType
  pub len : ℕ
  pub final : Bool

-- What `send` answers: a number of bytes, -1 with EINTR, or -1 with another errno, of which only
-- EAGAIN and EWOULDBLOCK are told apart from the rest.
pub data SendResult : Type 0 where
  wrote : ℕ → SendResult
  interrupted : SendResult
  send_failed : Bool → SendResult

pub record Platform : Type 1 where
  pub Env : Type 0
  -- xSemaphoreTake(lock, portMAX_DELAY), xSemaphoreTake(lock, pdMS_TO_TICKS(20)), xSemaphoreGive
  pub take : Lock → Env → Bool × Env
  pub take_20_ms : Lock → Env → Bool × Env
  pub give : Lock → Env → Env
  -- xTaskGetCurrentTaskHandle
  pub current_task : Env → ℕ
  -- esp_timer_get_time in microseconds, and time
  pub timer_us : Env → ℕ × Env
  pub epoch_s : Env → ℤ × Env
  -- httpd_ws_get_fd_info(...) == HTTPD_WS_CLIENT_WEBSOCKET
  pub is_websocket : ℤ → Env → Bool
  -- httpd_ws_send_data, httpd_ws_send_frame_async, httpd_sess_trigger_close, httpd_queue_work
  pub send_data : ℤ → Bytes → Env → EspErr × Env
  pub send_frame_async : ℤ → Bytes → Env → EspErr × Env
  pub trigger_close : ℤ → Env → EspErr × Env
  pub queue_work : Work → Env → EspErr × Env
  -- shutdown(fd, SHUT_RDWR), whose result is only logged
  pub shutdown : ℤ → Env → Env
  -- malloc and memcpy of a C string
  pub copy_text : Bytes → Env → Option Bytes × Env
  -- nvs_open, nvs_get_u64, nvs_set_u64, nvs_commit, nvs_close
  pub Handle : Type 0
  pub nvs_open : String → Bool → Env → EspErr × Handle × Env
  pub nvs_get_u64 : Handle → String → Env → EspErr × ℕ × Env
  pub nvs_set_u64 : Handle → String → ℕ → Env → EspErr × Env
  -- nvs_get_str into a buffer of the given size, which the code reads whatever the call answers
  pub nvs_get_str : Handle → String → ℕ → Bytes → Env → EspErr × Bytes × Env
  pub nvs_set_str : Handle → String → Bytes → Env → EspErr × Env
  pub nvs_get_u8 : Handle → String → Env → EspErr × ℕ × Env
  pub nvs_set_u8 : Handle → String → ℕ → Env → EspErr × Env
  pub nvs_commit : Handle → Env → EspErr × Env
  pub nvs_close : Handle → Env → Env
  -- cJSON. A node is the value that a cJSON pointer leads to. A call that adds an item gives `none`
  -- where it returns NULL, and `add_object` and `add_array` give the new item too. `set_item` is the
  -- object after its item under the key was changed in place, and `children` are the items that
  -- cJSON_ArrayForEach visits and cJSON_GetArraySize counts.
  pub Node : Type 0
  pub create_object : Env → Option Node × Env
  pub create_string : Bytes → Env → Option Node × Env
  pub add_string : Node → String → Bytes → Env → Option Node × Env
  pub add_number : Node → String → ℤ → Env → Option Node × Env
  pub add_bool : Node → String → Bool → Env → Option Node × Env
  pub add_object : Node → String → Env → Option (Node × Node) × Env
  pub add_array : Node → String → Env → Option (Node × Node) × Env
  pub add_item_to_array : Node → Node → Node
  pub set_item : Node → String → Node → Node
  pub delete_item : Node → String → Node
  -- cJSON_GetObjectItemCaseSensitive, item->string, item->valuestring
  pub get_item : Node → String → Option Node
  pub key_of : Node → Option Bytes
  pub value_string : Node → Option Bytes
  pub children : Node → List Node
  pub is_object : Node → Bool
  pub is_array : Node → Bool
  pub is_string : Node → Bool
  pub is_number : Node → Bool
  pub is_bool : Node → Bool
  pub is_true : Node → Bool
  -- item->valuedouble, its comparisons `<`, `>` and `==` with an integer, and its conversions to
  -- int64_t and uint64_t
  pub Double : Type 0
  pub value_double : Node → Double
  pub is_below : Double → ℕ → Bool
  pub is_above : Double → ℕ → Bool
  pub is_same : Double → ℕ → Bool
  pub truncate : Double → ℤ
  pub to_uint64 : Double → ℕ
  -- cJSON_ParseWithLengthOpts: the object, and how many bytes stand before `end`
  pub parse : Bytes → Env → Option (Node × ℕ) × Env
  -- httpd_ws_recv_frame for the header and for the payload, calloc, close, vTaskDelay
  pub probe_frame : ℤ → Env → (EspErr × FrameHead) × Env
  pub receive_frame : ℤ → ℕ → Env → (EspErr × Bytes) × Env
  pub allocate : ℕ → Env → Bool × Env
  pub close_socket : ℤ → Env → Env
  pub print_unformatted : Node → Env → Option Bytes × Env
  -- cJSON_GetObjectItem, which ignores the case of keys, and item->valueint
  pub get_item_any_case : Node → String → Option Node
  pub value_int : Node → ℤ
  -- httpd_req_recv of at most so many bytes: its result and the bytes; httpd_resp_sendstr with the
  -- headers before it, httpd_resp_send_err, and xTaskCreate(restart_task)
  pub request_recv : ℕ → Env → (ℤ × Bytes) × Env
  pub respond : Bytes → Env → EspErr × Env
  pub respond_error : String → Env → Env
  pub restart_soon : Env → Env
  -- send with the flags that the HTTP server passes on
  pub send : ℤ → Bytes → Env → SendResult × Env

-- app_context_t. `server` is that the handle is not NULL.
pub record AppContext : Type 0 where
  pub client_slots : Slots
  pub presence_broadcast_pending : Bool
  pub heartbeat_sweep_pending : Bool
  pub last_heartbeat_sweep_s : ℤ
  pub messages : MessageStore
  pub settings : ChatSettings
  pub server : Bool
  pub httpd_task_handle : Option ℕ

-- A frame that was handed to the transport, and whether it took it.
pub record Frame : Type 0 where
  pub fd : ℤ
  pub payload : Bytes
  pub result : EspErr

-- The frames stand newest first.
pub record World (Env : Type 0) : Type 0 where
  pub ctx : AppContext
  pub env : Env
  pub frames : List Frame

-- A piece of the program: it answers, and leaves a world behind.
abbrev pub Run : Type 0 → Type 0 → Type 0
Run Env A = World Env → A × World Env

infixl 5 ◌>>=◌ ◌>>◌
unfoldable pub ◌>>=◌ : {Env A B : Type 0} → Run Env A → (A → Run Env B) → Run Env B
◌>>=◌ m f w = let r = m w in f r.0 r.1

unfoldable pub ◌>>◌ : {Env A B : Type 0} → Run Env A → Run Env B → Run Env B
◌>>◌ m k w = k (m w).1

unfoldable pub done : {Env A : Type 0} → A → Run Env A
done a w = (a, w)

-- A call of the platform.
unfoldable pub call : {Env A : Type 0} → (Env → A × Env) → Run Env A
call f w = let r = f w.env in (r.0, record w { env = r.1 })

unfoldable pub tell : {Env : Type 0} → (Env → Env) → Run Env (Unit {0})
tell f w = (tt, record w { env = f w.env })

unfoldable pub get_ctx : {Env : Type 0} → Run Env AppContext
get_ctx w = (w.ctx, w)

unfoldable pub put_ctx : {Env : Type 0} → AppContext → Run Env (Unit {0})
put_ctx c w = (tt, record w { ctx = c })

unfoldable pub modify_ctx : {Env : Type 0} → (AppContext → AppContext) → Run Env (Unit {0})
modify_ctx f w = (tt, record w { ctx = f w.ctx })

-- `if (p == NULL) { m } else { k(p) }`.
abbrev pub on_option : {Env A X : Type 0} → Option X → Run Env A → (X → Run Env A) → Run Env A
on_option none m k = m
on_option (some x) m k = k x

module _ (p : Platform) where
  open p use {Env, take, give, current_task, timer_us}

  -- `if (xSemaphoreTake(lock) != pdTRUE) return otherwise; ...; xSemaphoreGive(lock);`
  unfoldable pub locked : {A : Type 0} → Lock → A → Run Env A → Run Env A
  locked lock otherwise body = do
    got ← call (take lock)
    elim got [ false ↦ done otherwise | true ↦ do a ← body; tell (give lock); done a ]

  -- device_uptime_s
  unfoldable pub device_uptime_s : Run Env ℤ
  device_uptime_s = do us ← call timer_us; done (pos (us / 1000000))

  -- `ctx->httpd_task_handle != NULL && xTaskGetCurrentTaskHandle() != ctx->httpd_task_handle`.
  abbrev pub on_other_task : Option ℕ → ℕ → Bool
  on_other_task none task = false
  on_other_task (some t) task = if t == task then false else true

  -- `ctx->httpd_task_handle != NULL && xTaskGetCurrentTaskHandle() == ctx->httpd_task_handle`.
  abbrev pub on_httpd_task : Option ℕ → ℕ → Bool
  on_httpd_task none task = false
  on_httpd_task (some t) task = t == task
