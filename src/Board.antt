-- ===== src/Board.antt =====
-- What the boot of main/src/main.c, the access point of main/src/network/softap.c, the DNS server and
-- the HTTP server call of ESP-IDF and lwIP to set the network up. It stands beside Platform, over the
-- same state.
use Prim.Native.String.{String}
use esp32_web_chat.Common.{ℕ, Bool, true, false, Option, List, [], ◌∷◌, Bytes}
use esp32_web_chat.Common.Int.{ℤ}
use esp32_web_chat.Platform.{Run, EspErr, is_ok, ◌>>=◌, ◌>>◌, done, call, tell}

pub data AuthMode : Type 0 where
  wifi_auth_open wifi_auth_wpa2_psk : AuthMode

-- `ap` of wifi_config_t, as far as it is set. `ssid` is the whole array, with zeros to its end.
pub record ApConfig : Type 0 where
  pub ssid : Bytes
  pub ssid_len : ℕ
  pub password : Bytes
  pub channel : ℕ
  pub max_connection : ℕ
  pub authmode : AuthMode

-- esp_netif_ip_info_t
pub record IpInfo : Type 0 where
  pub ip : Bytes
  pub gw : Bytes
  pub netmask : Bytes

pub data Method : Type 0 where
  http_get http_post : Method

-- The handlers of http_server.c and websocket_server.c.
pub data Endpoint : Type 0 where
  root_page favicon style script : Endpoint
  websocket settings_get settings_post redirect : Endpoint

-- httpd_uri_t
pub record Route : Type 0 where
  pub uri : String
  pub method : Method
  pub handler : Endpoint

-- What a handler hands to httpd_resp_set_status, httpd_resp_set_type, httpd_resp_set_hdr and
-- httpd_resp_send. Every one has `Connection: close` and `Cache-Control: no-store`.
pub data Page : Type 0 where
  file : String → Bytes → Page
  found : Bytes → Page

pub record Board (Env : Type 0) : Type 1 where
  -- nvs_flash_init, nvs_flash_erase, and xSemaphoreCreateMutex, which may give NULL
  pub flash_init : Env → EspErr × Env
  pub flash_erase : Env → EspErr × Env
  pub create_mutex : Env → Bool × Env
  -- esp_netif_init, esp_event_loop_create_default, esp_netif_create_default_wifi_ap, and the calls on
  -- the interface that it gives
  pub Netif : Type 0
  pub netif_init : Env → EspErr × Env
  pub event_loop : Env → EspErr × Env
  pub create_ap : Env → Option Netif × Env
  pub dhcps_stop : Netif → Env → EspErr × Env
  pub set_ip_info : Netif → IpInfo → Env → EspErr × Env
  pub dhcps_start : Netif → Env → EspErr × Env
  pub set_dns_info : Netif → Bytes → Env → Env
  -- esp_wifi_init, esp_wifi_set_mode(WIFI_MODE_AP), esp_wifi_set_config, esp_wifi_start
  pub wifi_init : Env → EspErr × Env
  pub wifi_set_mode_ap : Env → EspErr × Env
  pub wifi_set_config : ApConfig → Env → EspErr × Env
  pub wifi_start : Env → EspErr × Env
  -- The address that esp_netif_get_ip_info gives for the access point, from its first byte on
  pub ap_address : Env → Bytes × Env
  -- socket(AF_INET, SOCK_DGRAM, 0), setsockopt, bind, recvfrom into a buffer of so many bytes with
  -- `none` where it answers less than 0, sendto, xTaskCreate(dns_server_task)
  pub Peer : Type 0
  pub udp_socket : Env → ℤ × Env
  pub reuse_address : ℤ → Env → Env
  pub udp_bind : ℤ → ℕ → Env → Bool × Env
  pub udp_receive : ℤ → ℕ → Env → Option (Bytes × Peer) × Env
  pub udp_send : ℤ → Bytes → Peer → Env → Env
  pub start_dns_task : Env → Env
  -- httpd_start with `max_open_sockets`, whether it answers ESP_OK; httpd_register_uri_handler, whose
  -- result is not looked at; and the end of a handler that only answers
  pub start_server : ℕ → Env → Bool × Env
  pub register_uri_handler : Route → Env → Env
  pub send_page : Page → Env → Env

-- ESP_ERROR_CHECK and assert stop the program. A piece of the boot answers whether it goes on.
abbrev pub error_check : {Env : Type 0} → (Env → EspErr × Env) → Run Env Bool
error_check f = do ret ← call f; done (is_ok ret)

abbrev pub unchecked : {Env : Type 0} → (Env → Env) → Run Env Bool
unchecked f = do tell f; done true

abbrev pub while_running : {Env : Type 0} → Bool → Run Env Bool → Run Env Bool
while_running true k = k
while_running false k = done false

-- One piece after the other, until one stops the program.
unfoldable pub checked : {Env : Type 0} → List (Run Env Bool) → Run Env Bool
checked [] = done true
checked (m ∷ ms) = do running ← m; while_running running (checked ms)
