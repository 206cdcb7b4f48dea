-- ===== src/Config.antt =====
-- main/include/chat_config.h and chat_types.h: the limits and the records of the program.
use esp32_web_chat.Common.{ℕ, ◌≤◌, Bool, Option, Bytes}
use esp32_web_chat.Common.Int.{ℤ}

-- The values that the build takes from Kconfig (main/Kconfig.projbuild), and CONFIG_LWIP_MAX_SOCKETS,
-- which may be undefined.
pub record Config : Type 0 where
  pub wifi_ssid : Bytes
  pub wifi_password : Bytes
  pub admin_password : Bytes
  pub wifi_channel : ℕ
  pub max_clients : ℕ
  pub max_messages : ℕ
  pub heartbeat_interval_s : ℕ
  pub max_text_bytes : ℕ
  pub max_ws_payload_bytes : ℕ
  pub max_sta_conn : ℕ
  pub lwip_max_sockets : Option ℕ

-- The ranges that Kconfig enforces.
pub record IsInRange (c : Config) : Type 0 where
  pub channel_low : 1 ≤ c.wifi_channel
  pub channel_high : c.wifi_channel ≤ 13
  pub clients_low : 1 ≤ c.max_clients
  pub clients_high : c.max_clients ≤ 16
  pub messages_low : 1 ≤ c.max_messages
  pub messages_high : c.max_messages ≤ 300
  pub heartbeat_low : 5 ≤ c.heartbeat_interval_s
  pub heartbeat_high : c.heartbeat_interval_s ≤ 300

abbrev pub time_sync_tolerance_s : ℕ
time_sync_tolerance_s = 120

abbrev pub ws_join_timeout_s : ℕ
ws_join_timeout_s = 10

abbrev pub max_user_id_len : ℕ
max_user_id_len = 63

abbrev pub max_name_len : ℕ
max_name_len = 31

abbrev pub max_request_id_len : ℕ
max_request_id_len = 63

abbrev pub max_group_id_len : ℕ
max_group_id_len = 63

abbrev pub max_group_name_len : ℕ
max_group_name_len = 63

abbrev pub max_json_nesting_depth : ℕ
max_json_nesting_depth = 16

abbrev pub valid_epoch_start_s : ℕ
valid_epoch_start_s = 946684800

abbrev pub valid_epoch_end_s : ℕ
valid_epoch_end_s = 4102444800

-- CHAT_MESSAGE_MAX_SAFE_ID of main/include/storage/message_id_store.h.
abbrev pub max_safe_id : ℕ
max_safe_id = 9007199254740991

-- client_slot_t
pub record ClientSlot : Type 0 where
  pub fd : ℤ
  pub active : Bool
  pub closing : Bool
  pub joined : Bool
  pub is_alive : Bool
  pub time_offset_valid : Bool
  pub time_offset_s : ℤ
  pub registered_at_s : ℤ
  pub last_ping_s : ℤ
  pub user_id : Bytes
  pub name : Bytes

-- message_t: `payload` is `none` where the pointer is NULL.
pub record Message : Type 0 where
  pub payload : Option Bytes
  pub id : ℕ

-- history_bounds_t
pub record HistoryBounds : Type 0 where
  pub boot_start_id : ℕ
  pub current_id : ℕ
  pub earliest_id : ℕ
  pub latest_id : ℕ
  pub restore_before_id : ℕ
  pub count : ℕ
  pub capacity : ℕ
  pub has_more_before : Bool

abbrev pub max_wifi_ssid_len : ℕ
max_wifi_ssid_len = 32

abbrev pub min_wifi_pass_len : ℕ
min_wifi_pass_len = 8

abbrev pub max_wifi_pass_len : ℕ
max_wifi_pass_len = 63

abbrev pub min_admin_pass_len : ℕ
min_admin_pass_len = 4

abbrev pub max_admin_pass_len : ℕ
max_admin_pass_len = 32

-- chat_settings_t
pub record ChatSettings : Type 0 where
  pub ssid : Bytes
  pub password : Bytes
  pub channel : ℕ
  pub admin_password : Bytes
