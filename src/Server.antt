-- ===== src/Server.antt =====
-- Sending and closing of main/src/server/websocket_server.c.
pub mod Recipients
pub mod Distinct
use Prim.Native.String.{String}
use esp32_web_chat.Common.{
  Bool, true, false, not, ◌&&◌, ◌||◌, Option, none, some, List, [], ◌∷◌, Bytes, codes,
  if◌then◌else◌,
}
use esp32_web_chat.Common.Int.{ℤ, pos, ltb_ℤ}
use esp32_web_chat.Slots.{Slots, is_open}
use esp32_web_chat.Platform.{
  Platform, Run, client_mutex, EspErr, err_invalid_arg, err_invalid_state, err_no_mem, is_ok,
  is_not_found, ◌>>=◌, done, call, tell, get_ctx, locked, on_other_task, on_httpd_task,
}
use esp32_web_chat.Clock.{current_timestamp_s}
use esp32_web_chat.Sessions.{mark_closing, remove_by_fd}

-- The first loop of chat_ws_broadcast. A slot adds one descriptor at most, so the array of
-- MAX_CLIENTS places is never full and the test of `fd_count` always passes.
unfoldable pub broadcast_fds : Slots → List ℤ
broadcast_fds [] = []
broadcast_fds (s ∷ ss) = if is_open s && s.joined then s.fd ∷ broadcast_fds ss else broadcast_fds ss

module _ (p : Platform) where
  open p use {
    Env, Node, current_task, is_websocket, send_data, send_frame_async, trigger_close, shutdown,
    create_object, add_string, add_number, print_unformatted,
  }

  -- Handing a frame to the transport, which is recorded.
  abbrev pub transmit : (Env → EspErr × Env) → ℤ → Bytes → Run Env EspErr
  transmit send fd payload w =
      let r = send w.env in
      (
        r.0,
        record w {
          env = r.1;
          frames = record { fd = fd; payload = payload; result = r.0 } ∷ w.frames;
        },
      )

  -- chat_ws_send_text.
  unfoldable pub send_text : ℤ → Bytes → Run Env EspErr
  send_text fd payload w =
      if not w.ctx.server || ltb_ℤ fd (pos 0)
      then (err_invalid_arg, w)
      else if not (is_websocket fd w.env)
      then (err_invalid_state, w)
      else if on_other_task p w.ctx.httpd_task_handle (current_task w.env)
      then transmit (send_data fd payload) fd payload w
      else transmit (send_frame_async fd payload) fd payload w

  -- The end of chat_ws_close_client on a task other than the HTTP server's.
  abbrev pub close_from_outside : ℤ → Run Env (Unit {0})
  close_from_outside fd = do
    ret ← call (trigger_close fd)
    elim (is_not_found ret) [
      | true ↦ do removed ← remove_by_fd p fd; done tt
      | false ↦ elim (is_ok ret) [ true ↦ done tt | false ↦ tell (shutdown fd) ]
    ]

  -- chat_ws_close_client.
  unfoldable pub close_client : ℤ → Run Env (Unit {0})
  unfolding mark_closing remove_by_fd
  close_client fd = elim (ltb_ℤ fd (pos 0)) [
    | true ↦ done tt
    | false ↦ do
      was_joined ← mark_closing p fd
      ctx ← get_ctx
      elim (ctx.server) [
        | false ↦ do removed ← remove_by_fd p fd; done tt
        | true ↦ λ w.
            if on_httpd_task p w.ctx.httpd_task_handle (current_task w.env)
            then tell (shutdown fd) w
            else close_from_outside fd w
      ]
  ]

  -- The second loop of chat_ws_broadcast: each client that cannot be sent to is closed.
  unfoldable pub send_each : Bytes → List ℤ → Run Env Bool
  send_each payload [] = done false
  send_each payload (fd ∷ fds) = do
    ret ← send_text fd payload
    elim (is_ok ret) [
      | true ↦ send_each payload fds
      | false ↦ do closed ← close_client fd; rest ← send_each payload fds; done true
    ]

  -- chat_ws_broadcast.
  unfoldable pub broadcast : Bytes → Run Env Bool
  unfolding broadcast_fds
  broadcast payload = do
    fds ← locked p client_mutex [] (do ctx ← get_ctx; done (broadcast_fds ctx.client_slots))
    send_each payload fds

  abbrev pub or_same : Node → Option Node → Node
  or_same root none = root
  or_same root (some root') = root'

  -- cJSON_AddXToObject whose result is not looked at.
  unfoldable pub add : (Node → Env → Option Node × Env) → Node → Run Env Node
  add f root w = let r = f root w.env in (or_same root r.0, record w { env = r.1 })

  -- The end of chat_ws_send_error: printing the object, and sending the text.
  unfoldable pub print_and_send : ℤ → Node → Run Env EspErr
  unfolding send_text
  print_and_send fd root = do
    printed ← call (print_unformatted root)
    elim printed [ none ↦ done err_no_mem | some payload ↦ send_text fd payload ]

  -- chat_ws_send_error, whose code and message are never NULL.
  unfoldable pub send_error : ℤ → String → String → Run Env EspErr
  unfolding current_timestamp_s print_and_send
  send_error fd code message = do
    created ← call create_object
    elim created [
      | none ↦ done err_no_mem
      | some root0 ↦ do
        root1 ← add (λ n. add_string n "type" (codes "error")) root0
        root2 ← add (λ n. add_string n "from" (codes "server")) root1
        root3 ← add (λ n. add_string n "code" (codes code)) root2
        root4 ← add (λ n. add_string n "data" (codes message)) root3
        now ← current_timestamp_s p
        root5 ← add (λ n. add_number n "timestamp" now) root4
        print_and_send fd root5
    ]
