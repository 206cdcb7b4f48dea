-- ===== src/Dns.antt =====
-- main/src/network/dns_server.c, which sends every name to the access point.
pub mod Reply
pub mod Server
use esp32_web_chat.Common.{
  ℕ, zero, suc, ◌+◌, Bool, true, false, ◌||◌, Option, none, some, List, [], ◌∷◌, ◌++◌, Bytes,
  if◌then◌else◌, ltb, length, set,
}
use esp32_web_chat.Common.Int.{ℤ, pos, ltb_ℤ}
use esp32_web_chat.Platform.{Run, ◌>>=◌, ◌>>◌, done, call, tell, on_option}
use esp32_web_chat.Board.{Board}

abbrev pub dns_packet_bytes : ℕ
dns_packet_bytes = 256

abbrev pub dns_answer_bytes : ℕ
dns_answer_bytes = 16

-- The flags and the number of answers.
unfoldable pub set_header : Bytes → Bytes
set_header query = set (set (set (set query 2 0x81) 3 0x80) 6 0x00) 7 0x01

-- What is written after the query: a pointer to its name, type A, class IN, 60 seconds, 4 bytes.
abbrev pub answer : Bytes → Bytes
answer ip = 0xc0 ∷ 0x0c ∷ 0x00 ∷ 0x01 ∷ 0x00 ∷ 0x01 ∷ 0x00 ∷ 0x00 ∷ 0x00 ∷ 0x3c ∷ 0x00 ∷ 0x04 ∷ ip

-- The test that drops a query that is too short, or too long for the answer to fit.
unfoldable pub is_refused : Bytes → Bool
is_refused query = ltb (length query) 12 || ltb dns_packet_bytes (length query + dns_answer_bytes)

-- What is sent back for a query.
unfoldable pub answered : Bytes → Bytes → Bytes
unfolding set_header
answered ip query = set_header query ++ answer ip

-- What a round of the loop makes of a query: `none` where it goes on at once.
unfoldable pub reply : Bytes → Bytes → Option Bytes
unfolding is_refused answered
reply ip query = if is_refused query then none else some (answered ip query)

abbrev pub dns_port : ℕ
dns_port = 53

module _ {Env : Type 0} (b : Board Env) where
  open b use {Peer, ap_address, udp_socket, reuse_address, udp_bind, udp_receive, udp_send}

  abbrev bind_socket : (ℤ → Env → Env) → ℤ → Run Env (Option ℤ)
  bind_socket close sock = do
    tell (reuse_address sock)
    bound ← call (udp_bind sock dns_port)
    elim bound [ true ↦ done (some sock) | false ↦ do tell (close sock); done none ]

  -- dns_server_task up to its loop, given the call that closes a socket: the socket, where there is one.
  unfoldable pub dns_open : (ℤ → Env → Env) → Run Env (Option ℤ)
  dns_open close = do
    sock ← call udp_socket
    elim (ltb_ℤ sock (pos 0)) [ true ↦ done none | false ↦ bind_socket close sock ]

  -- The loop for a datagram.
  unfoldable pub dns_answer : ℤ → Bytes → Peer → Run Env (Unit {0})
  unfolding is_refused answered
  dns_answer sock query client = elim (is_refused query) [
    | true ↦ done tt
    | false ↦ do ip ← call ap_address; tell (udp_send sock (answered ip query) client)
  ]

  -- A round of the loop. Where recvfrom fails, `len` is negative, and the round ends.
  unfoldable pub dns_round : ℤ → Run Env (Unit {0})
  unfolding dns_answer
  dns_round sock = do
    got ← call (udp_receive sock dns_packet_bytes)
    on_option got (done tt) λ datagram. dns_answer sock datagram.0 datagram.1

  -- The loop never ends: its first so many rounds.
  unfoldable pub dns_rounds : ℕ → ℤ → Run Env (Unit {0})
  unfolding dns_round
  dns_rounds zero sock = done tt
  dns_rounds (suc n) sock = do dns_round sock; dns_rounds n sock
