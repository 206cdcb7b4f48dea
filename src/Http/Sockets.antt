-- ===== src/Http/Sockets.antt =====
-- The limit on the sessions of the HTTP server in main/src/server/http_server.c.
use esp32_web_chat.Common.{
  ℕ, ◌⊎◌, ◌+◌, ◌-◌, ◌≤◌, ◌<◌, ◌≡◌, Option, none, some, arith, ltb, if◌then◌else◌,
}

-- HTTP_STATIC_SOCKET_MARGIN, HTTPD_INTERNAL_SOCKETS, DNS_SERVER_SOCKETS
abbrev pub http_static_socket_margin : ℕ
http_static_socket_margin = 2

abbrev pub httpd_internal_sockets : ℕ
httpd_internal_sockets = 3

abbrev pub dns_server_sockets : ℕ
dns_server_sockets = 1

-- What lwIP leaves to the sessions; a negative difference is raised to 1 as 0 is.
unfoldable pub available_sockets : ℕ → ℕ
available_sockets lwip_max_sockets =
    let n = lwip_max_sockets - httpd_internal_sockets - dns_server_sockets in
    if ltb n 1 then 1 else n

-- config.max_open_sockets of chat_http_start_server, from CONFIG_LWIP_MAX_SOCKETS, which may be
-- undefined, and MAX_CLIENTS.
unfoldable pub max_open_sockets : Option ℕ → ℕ → ℕ
max_open_sockets none max_clients = max_clients + http_static_socket_margin
max_open_sockets (some lwip_max_sockets) max_clients =
    let desired_sockets = max_clients + http_static_socket_margin in
    let available = available_sockets lwip_max_sockets in
    if ltb available desired_sockets then available else desired_sockets

-- The reserved sockets and the sessions together.
abbrev pub all_sockets : Option ℕ → ℕ → ℕ
all_sockets lwip max_clients =
    max_open_sockets lwip max_clients + httpd_internal_sockets + dns_server_sockets

-- Where lwIP has more sockets than the HTTP server and the DNS server use for themselves, the
-- limit on the open sessions is at least 1 and at most the clients with the margin, the sessions
-- fit into lwIP's sockets together with the reserved ones, and the limit is the largest such: it
-- is the clients with the margin, or all the sockets are used.
pub max_open_sockets-fits :
    (lwip_max_sockets max_clients : ℕ)
    → httpd_internal_sockets + dns_server_sockets < lwip_max_sockets
    → (1 ≤ max_open_sockets (some lwip_max_sockets) max_clients)
      × (max_open_sockets (some lwip_max_sockets) max_clients ≤ max_open_sockets none max_clients)
      × (all_sockets (some lwip_max_sockets) max_clients ≤ lwip_max_sockets)
      × ((max_open_sockets (some lwip_max_sockets) max_clients ≡ max_open_sockets none max_clients)
          ⊎ (all_sockets (some lwip_max_sockets) max_clients ≡ lwip_max_sockets))
unfolding max_open_sockets available_sockets
max_open_sockets-fits n m h =
    (ground (arith, h), ground (arith, h), ground (arith, h), ground (arith, h))
