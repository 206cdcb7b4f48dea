-- ===== src/Tests/Network.antt =====
-- The access point, the DNS server and the settings page at work.
use esp32_web_chat.Common.{ℕ, ◌≡◌, refl, true, Option, none, some, List, [], ◌∷◌, Bytes, codes}
use esp32_web_chat.Common.Int.{pos}
use esp32_web_chat.Platform.{Platform, World, ◌>>=◌, ◌>>◌, done, call, tell, get_ctx, esp_ok}
use esp32_web_chat.Board.{Board, ApConfig, checked}
use esp32_web_chat.Softap.{configure_ap, softap_start}
use esp32_web_chat.Softap.Valid.{Radio, Serves, softap_start-Serves}
use esp32_web_chat.Dns.{dns_rounds}
use esp32_web_chat.Dns.Server.{Net, IsAnswered, with_new, replies, dns_rounds-IsAnswered}
use esp32_web_chat.Http.Pages.{location_url, settings_get_handler}
use esp32_web_chat.Http.Secret.{settings_get_handler-hides}
use esp32_web_chat.Tests.Store.{over, ready, build, world}
use esp32_web_chat.Tests.Board.{board}
use esp32_web_chat.Tests.Flash.{chosen, chosen-IsUsable}

-- A radio that keeps its configuration.
abbrev tuned : Board (Option ApConfig)
tuned = record (board (Option ApConfig)) { wifi_set_config = λ c e. (esp_ok, some c) }

abbrev tuned-Radio : Radio tuned
tuned-Radio = record { configured = λ e. e; sets = λ c e. refl; starts = λ e. refl }

abbrev with_radio : Platform
with_radio = over (Option ApConfig) (λ e. 7) (λ key n e. e) (λ e. e)

abbrev before_ap : World (Option ApConfig)
before_ap = record { ctx = record (world.ctx) { settings = chosen }; env = none; frames = [] }

ap_starts : (softap_start with_radio tuned build before_ap).0 ≡ true
unfolding softap_start configure_ap checked ◌>>=◌ ◌>>◌ done call tell get_ctx
ap_starts = refl

softap_start-Serves_example :
    (c : ApConfig) × ((softap_start with_radio tuned build before_ap).1.env ≡ some c)
    × Serves chosen c
softap_start-Serves_example =
    softap_start-Serves with_radio tuned tuned-Radio build before_ap chosen-IsUsable ap_starts

-- A network that has the datagrams of `waiting` for the server.
record Wire : Type 0 where
  waiting : List (Bytes × ℕ)
  taken : List (Bytes × ℕ)
  given : List (Bytes × ℕ)

abbrev next_datagram : Wire → List (Bytes × ℕ) → Option (Bytes × ℕ) × Wire
next_datagram w [] = (none, w)
next_datagram w (d ∷ ds) = (some d, record { waiting = ds; taken = d ∷ w.taken; given = w.given })

next_datagram-taken :
    (w : Wire) (ds : List (Bytes × ℕ))
    → (next_datagram w ds).1.taken ≡ with_new (next_datagram w ds).0 w.taken
next_datagram-taken w [] = refl
next_datagram-taken w (d ∷ ds) = refl

next_datagram-given : (w : Wire) (ds : List (Bytes × ℕ)) → (next_datagram w ds).1.given ≡ w.given
next_datagram-given w [] = refl
next_datagram-given w (d ∷ ds) = refl

abbrev wired : Board Wire
wired = record (board Wire) {
  Peer = ℕ;
  udp_receive = λ s size e. next_datagram e e.waiting;
  udp_send = λ s t to e. record e { given = (t, to) ∷ e.given };
}

abbrev wired-Net : Net wired
wired-Net = record {
  received = λ e. e.taken;
  sent = λ e. e.given;
  address = 192 ∷ 168 ∷ 4 ∷ 1 ∷ [];
  receives = λ s size e. next_datagram-taken e e.waiting;
  receives_only = λ s size e. next_datagram-given e e.waiting;
  sends = λ s t to e. refl;
  sends_only = λ s t to e. refl;
  asks = λ e. refl;
  asks_only = λ e. (refl, refl);
}

-- A query of twelve bytes, and one that is too short.
abbrev two_queries : World Wire
two_queries = record {
  ctx = world.ctx;
  env = record {
    waiting = (0 ∷ 1 ∷ 2 ∷ 3 ∷ 4 ∷ 5 ∷ 6 ∷ 7 ∷ 8 ∷ 9 ∷ 10 ∷ 11 ∷ [], 70) ∷ (0 ∷ 1 ∷ [], 71) ∷ [];
    taken = [];
    given = [];
  };
  frames = [];
}

nothing_yet : IsAnswered wired wired-Net (pos 3) two_queries
unfolding replies
nothing_yet = refl

dns_rounds-IsAnswered_example :
    IsAnswered wired wired-Net (pos 3) (dns_rounds wired 2 (pos 3) two_queries).1
dns_rounds-IsAnswered_example =
    dns_rounds-IsAnswered wired wired-Net (pos 3) 2 two_queries nothing_yet

abbrev other_admin : World (Unit {0})
other_admin = record world {
  ctx = record (world.ctx) {
    settings = record (world.ctx.settings) { admin_password = 115 ∷ 101 ∷ 99 ∷ [] };
  };
}

settings_get_handler-hides_example :
    ((settings_get_handler ready (board (Unit {0})) world).0
      ≡ (settings_get_handler ready (board (Unit {0})) other_admin).0)
    × ((settings_get_handler ready (board (Unit {0})) world).1.env
        ≡ (settings_get_handler ready (board (Unit {0})) other_admin).1.env)
    × ((settings_get_handler ready (board (Unit {0})) world).1.frames
        ≡ (settings_get_handler ready (board (Unit {0})) other_admin).1.frames)
settings_get_handler-hides_example =
    settings_get_handler-hides ready (board (Unit {0})) world other_admin refl refl refl

redirects_home : location_url (192 ∷ 168 ∷ 4 ∷ 1 ∷ []) ≡ codes "http://192.168.4.1/"
unfolding location_url
redirects_home = refl
