-- ===== src/Dns/Server.antt =====
-- The DNS server answers each query by itself.
use mathlib.Core.Option
use esp32_web_chat.Common.{
  ℕ, zero, suc, ◌≡◌, sym, ap, ◌∙◌, Option, none, some, List, [], ◌∷◌, Bytes, if◌then◌else◌,
}
use esp32_web_chat.Common.Int.{ℤ}
use esp32_web_chat.Platform.{World, ◌>>=◌, ◌>>◌, done, call, tell, on_option}
use esp32_web_chat.Platform.Keeps.{branch}
use esp32_web_chat.Board.{Board}
use esp32_web_chat.Dns.{
  is_refused, answered, reply, dns_packet_bytes, dns_answer, dns_round, dns_rounds,
}

-- A datagram and whom it is from, or to.
abbrev pub Datagram : {Env : Type 0} → Board Env → Type 0
Datagram b = Bytes × b.Peer

abbrev pub with_new : {A : Type 0} → Option A → List A → List A
with_new none xs = xs
with_new (some x) xs = x ∷ xs

-- What goes back for a datagram, to who sent it.
abbrev pub reply_to : {Peer : Type 0} → Bytes → Bytes × Peer → Option (Bytes × Peer)
reply_to ip (query, client) = Option.map (λ r. (r, client)) (reply ip query)

-- The replies to a series of datagrams, each by itself and in their order.
unfoldable pub replies : {Peer : Type 0} → Bytes → List (Bytes × Peer) → List (Bytes × Peer)
replies ip [] = []
replies ip (d ∷ ds) = with_new (reply_to ip d) (replies ip ds)

-- The datagrams that the network has handed to the server and that it has taken from it, newest first.
-- The access point keeps its address.
pub record Net {Env : Type 0} (b : Board Env) : Type 0 where
  pub received : Env → List (Datagram b)
  pub sent : Env → List (Datagram b)
  pub address : Bytes
  pub receives :
      (s : ℤ) (size : ℕ) (e : Env)
      → received (b.udp_receive s size e).1 ≡ with_new (b.udp_receive s size e).0 (received e)
  pub receives_only : (s : ℤ) (size : ℕ) (e : Env) → sent (b.udp_receive s size e).1 ≡ sent e
  pub sends :
      (s : ℤ) (t : Bytes) (to : b.Peer) (e : Env) → sent (b.udp_send s t to e) ≡ (t, to) ∷ sent e
  pub sends_only :
      (s : ℤ) (t : Bytes) (to : b.Peer) (e : Env) → received (b.udp_send s t to e) ≡ received e
  pub asks : (e : Env) → (b.ap_address e).0 ≡ address
  pub asks_only :
      (e : Env) → (received (b.ap_address e).1 ≡ received e) × (sent (b.ap_address e).1 ≡ sent e)

module _ {Env : Type 0} (b : Board Env) (net : Net b) (sock : ℤ) where
  -- Every datagram has had its reply.
  abbrev pub IsAnswered : World Env → Type 0
  IsAnswered w = net.sent w.env ≡ replies net.address (net.received w.env)

  dns_answer-IsAnswered :
      (query : Bytes) (client : b.Peer) (earlier : List (Datagram b)) (w : World Env)
      → net.received w.env ≡ (query, client) ∷ earlier
      → net.sent w.env ≡ replies net.address earlier
      → IsAnswered (dns_answer b sock query client w).1
  unfolding dns_answer replies reply ◌>>=◌ call done tell
  dns_answer-IsAnswered query client earlier w r s =
      branch (λ (o : Unit {0} × World Env). IsAnswered o.1) (is_refused query) _ _ w
        (λ f.
          let ip = b.ap_address w.env in
          net.sends sock (answered ip.0 query) client ip.1
          ∙ ap (λ t. (answered t query, client) ∷ net.sent ip.1) (net.asks w.env)
          ∙ ap (λ l. (answered net.address query, client) ∷ l) ((net.asks_only w.env).1 ∙ s)
          ∙ sym (
              ap
                (λ q.
                  with_new
                    (Option.map (λ r. (r, client))
                      (if q then none else some (answered net.address query)))
                    (replies net.address earlier))
                f)
          ∙ sym (
              ap (replies net.address) (
                net.sends_only sock (answered ip.0 query) client ip.1
                ∙ (net.asks_only w.env).0
                ∙ r)))
        (λ t.
          s
          ∙ sym (
              ap
                (λ q.
                  with_new
                    (Option.map (λ r. (r, client))
                      (if q then none else some (answered net.address query)))
                    (replies net.address earlier))
                t)
          ∙ sym (ap (replies net.address) r))

  after_receive-IsAnswered :
      (o : Option (Datagram b)) (old : List (Datagram b)) (w : World Env)
      → net.received w.env ≡ with_new o old
      → net.sent w.env ≡ replies net.address old
      → IsAnswered (on_option o (done tt) (λ d. dns_answer b sock d.0 d.1) w).1
  unfolding done
  after_receive-IsAnswered none old w r s = s ∙ sym (ap (replies net.address) r)
  after_receive-IsAnswered (some (query, client)) old w r s =
      dns_answer-IsAnswered query client old w r s

  dns_round-IsAnswered : (w : World Env) → IsAnswered w → IsAnswered (dns_round b sock w).1
  unfolding dns_round ◌>>=◌ call
  dns_round-IsAnswered w h =
      let got = b.udp_receive sock dns_packet_bytes w.env in
      after_receive-IsAnswered got.0 (net.received w.env) (record w { env = got.1 })
        (net.receives sock dns_packet_bytes w.env)
        (net.receives_only sock dns_packet_bytes w.env ∙ h)

  -- On a network that keeps what was received and what was sent, and an access point that keeps
  -- its address, any number of rounds of the DNS server keep this: what was sent is, in order, the
  -- reply to each datagram that was received and that is neither too short nor too long, to who
  -- sent it, and nothing else.
  pub dns_rounds-IsAnswered :
      (n : ℕ) (w : World Env) → IsAnswered w → IsAnswered (dns_rounds b n sock w).1
  unfolding dns_rounds ◌>>◌ done
  dns_rounds-IsAnswered zero w h = h
  dns_rounds-IsAnswered (suc n) w h =
      dns_rounds-IsAnswered n (dns_round b sock w).1 (dns_round-IsAnswered w h)
