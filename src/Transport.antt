-- ===== src/Transport.antt =====
-- main/src/server/socket_transport.c: sending a whole buffer, or shutting the connection down.
pub mod Complete
pub mod Ends
use esp32_web_chat.Common.{
  ℕ, zero, suc, ◌+◌, ◌*◌, ◌^◌, ◌-◌, Bool, true, false, not, Option, none, some, Bytes, drop, length,
  ltb, leb, ◌==◌, if◌then◌else◌,
}
use esp32_web_chat.Common.Int.{ℤ, pos}
use esp32_web_chat.Platform.{Platform, SendResult, wrote, interrupted, send_failed}

-- HTTP_SEND_TIMEOUT_S
abbrev pub http_send_timeout_s : ℕ
http_send_timeout_s = 1

-- How the loop of send_complete ends: everything is sent, or `failure` is EAGAIN or EWOULDBLOCK, or
-- it is another error.
pub data SendEnd : Type 0 where
  sent_all timed_out broken : SendEnd

-- What send_complete returns: the number of bytes, HTTPD_SOCK_ERR_INVALID, HTTPD_SOCK_ERR_TIMEOUT or
-- HTTPD_SOCK_ERR_FAIL. errno is left out.
pub data SendAnswer : Type 0 where
  sent_bytes : ℕ → SendAnswer
  sock_err_invalid sock_err_timeout sock_err_fail : SendAnswer

module _ (p : Platform) where
  open p use {Env, timer_us, send, shutdown}

  -- The end of a round, with the next one as a function of the bytes that were sent.
  abbrev pub after_send : (ℕ → Option SendEnd × Env) → SendResult → Env → Option SendEnd × Env
  after_send continue (wrote zero) e = (some broken, e)
  after_send continue (wrote (suc n)) e = continue (suc n)
  after_send continue interrupted e = continue 0
  after_send continue (send_failed true) e = (some timed_out, e)
  after_send continue (send_failed false) e = (some broken, e)

  -- The loop, from the bytes sent so far, looked at for so many rounds: `none` where it goes on after
  -- them.
  unfoldable pub send_loop : ℕ → ℕ → ℤ → Bytes → ℕ → Env → Option SendEnd × Env
  send_loop zero started fd buffer sent e = (none, e)
  send_loop (suc rounds) started fd buffer sent e =
      let t = timer_us e in
      let r = send fd (drop sent buffer) t.1 in
      let rest = after_send (λ n. send_loop rounds started fd buffer (sent + n) r.1) r.0 r.1 in
      if not (ltb sent (length buffer))
      then (some (if sent == length buffer then sent_all else broken), e)
      else if leb (started + http_send_timeout_s * 1000000) t.0
      then (some timed_out, t.1)
      else rest

  -- What follows the loop.
  abbrev pub finish : ℤ → Bytes → Option SendEnd × Env → Option (SendAnswer × Env)
  finish fd buffer (none, e) = none
  finish fd buffer (some sent_all, e) = some (sent_bytes (length buffer), e)
  finish fd buffer (some timed_out, e) = some (sock_err_timeout, shutdown fd e)
  finish fd buffer (some broken, e) = some (sock_err_fail, shutdown fd e)

  -- send_complete, looked at for so many rounds of its loop: `none` where it has not returned after
  -- them. The buffer is never NULL.
  unfoldable pub send_complete : ℕ → ℤ → Bytes → Env → Option (SendAnswer × Env)
  unfolding send_loop
  send_complete rounds fd buffer e =
      let t = timer_us e in
      if ltb (2 ^ 31 - 1) (length buffer)
      then some (sock_err_invalid, e)
      else finish fd buffer (send_loop rounds t.0 fd buffer 0 t.1)
