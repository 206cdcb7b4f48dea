-- ===== src/Tests/Board.antt =====
-- A board on which every call succeeds.
use esp32_web_chat.Common.{true, none, some, [], ◌∷◌, Bytes}
use esp32_web_chat.Common.Int.{pos}
use esp32_web_chat.Platform.{esp_ok}
use esp32_web_chat.Board.{Board}
use esp32_web_chat.Http.Pages.{Asset}

-- A network that gives nothing to the DNS server, over any state.
abbrev pub board : (S : Type 0) → Board S
board S = record {
  flash_init = λ e. (esp_ok, e);
  flash_erase = λ e. (esp_ok, e);
  create_mutex = λ e. (true, e);
  Netif = Unit {0};
  netif_init = λ e. (esp_ok, e);
  event_loop = λ e. (esp_ok, e);
  create_ap = λ e. (some tt, e);
  dhcps_stop = λ n e. (esp_ok, e);
  set_ip_info = λ n i e. (esp_ok, e);
  dhcps_start = λ n e. (esp_ok, e);
  set_dns_info = λ n a e. e;
  wifi_init = λ e. (esp_ok, e);
  wifi_set_mode_ap = λ e. (esp_ok, e);
  wifi_set_config = λ c e. (esp_ok, e);
  wifi_start = λ e. (esp_ok, e);
  ap_address = λ e. (192 ∷ 168 ∷ 4 ∷ 1 ∷ [], e);
  Peer = Unit {0};
  udp_socket = λ e. (pos 3, e);
  reuse_address = λ s e. e;
  udp_bind = λ s port e. (true, e);
  udp_receive = λ s size e. (none, e);
  udp_send = λ s t to e. e;
  start_dns_task = λ e. e;
  start_server = λ sockets e. (true, e);
  register_uri_handler = λ r e. e;
  send_page = λ page e. e;
}

abbrev pub embedded : Asset → Bytes
embedded a = 60 ∷ []
