-- ===== src/Softap.antt =====
-- main/src/network/softap.c: the access point.
pub mod Valid
use esp32_web_chat.Common.{
  ℕ, Bool, false, Option, some, List, [], ◌∷◌, ◌++◌, Bytes, drop, replicate, length, ◌==◌,
  if◌then◌else◌,
}
use esp32_web_chat.Config.{Config, ChatSettings}
use esp32_web_chat.Slots.{copy_bounded}
use esp32_web_chat.Platform.{Platform, Run, ◌>>=◌, done, call, get_ctx, on_option}
use esp32_web_chat.Board.{
  Board, ApConfig, IpInfo, wifi_auth_open, wifi_auth_wpa2_psk, error_check, unchecked,
  while_running, checked,
}

-- sizeof(wifi_config.ap.ssid), and that of `password`, in ESP-IDF.
abbrev pub ap_ssid_bytes : ℕ
ap_ssid_bytes = 32

abbrev pub ap_password_bytes : ℕ
ap_password_bytes = 64

-- memcpy of all of `src` to the start of an array: where it does not fit, what is written is longer
-- than the array.
abbrev pub copy_over : Bytes → Bytes → Bytes
copy_over array src = src ++ drop (length src) array

-- wifi_config as chat_softap_start fills it in.
unfoldable pub ap_config : Config → ChatSettings → ApConfig
unfolding copy_bounded
ap_config c s = record {
  ssid = copy_over (replicate ap_ssid_bytes 0) s.ssid;
  ssid_len = length s.ssid;
  password = copy_bounded [] ap_password_bytes (some s.password);
  channel = s.channel;
  max_connection = c.max_sta_conn;
  authmode = if length s.password == 0 then wifi_auth_open else wifi_auth_wpa2_psk;
}

-- IP4_ADDR
abbrev pub ap_ip : Bytes
ap_ip = 192 ∷ 168 ∷ 4 ∷ 1 ∷ []

abbrev pub ap_ip_info : IpInfo
ap_ip_info = record { ip = ap_ip; gw = ap_ip; netmask = 255 ∷ 255 ∷ 255 ∷ 0 ∷ [] }

module _ (p : Platform) (b : Board (p.Env)) (cfg : Config) where
  open p use {Env}
  open b use {
    Netif, netif_init, event_loop, create_ap, dhcps_stop, set_ip_info, dhcps_start, set_dns_info,
    wifi_init, wifi_set_mode_ap, wifi_set_config, wifi_start,
  }

  -- chat_softap_start from the interface on.
  unfoldable pub configure_ap : Netif → Run Env Bool
  unfolding ap_config
  configure_ap netif = do
    ctx ← get_ctx
    checked (
        error_check (dhcps_stop netif)
        ∷ error_check (set_ip_info netif ap_ip_info)
        ∷ error_check (dhcps_start netif)
        ∷ unchecked (set_dns_info netif ap_ip)
        ∷ error_check wifi_init
        ∷ error_check wifi_set_mode_ap
        ∷ error_check (wifi_set_config (ap_config cfg ctx.settings))
        ∷ error_check wifi_start
        ∷ [])

  -- chat_softap_start.
  unfoldable pub softap_start : Run Env Bool
  unfolding configure_ap
  softap_start = do
    running ← checked (error_check netif_init ∷ error_check event_loop ∷ [])
    while_running running (do created ← call create_ap; on_option created (done false) configure_ap)
