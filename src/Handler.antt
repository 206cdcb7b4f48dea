-- ===== src/Handler.antt =====
-- The handlers of main/src/server/websocket_server.c that the HTTP server calls: before a handshake,
-- when a session ends, and for each WebSocket frame.
use esp32_web_chat.Common.{
  ℕ, ◌+◌, Bool, true, false, not, ◌&&◌, ◌||◌, Option, none, some, Bytes, ltb, ◌==◌, if◌then◌else◌,
}
use esp32_web_chat.Common.Int.{ℤ, pos, ltb_ℤ}
use esp32_web_chat.Config.{Config}
use esp32_web_chat.Platform.{
  Platform, Run, AppContext, EspErr, esp_ok, esp_fail, err_no_mem, is_ok, FrameType, text_frame,
  close_frame, pong_frame, FrameHead, ◌>>=◌, ◌>>◌, done, call, tell, modify_ctx, on_option,
}
use esp32_web_chat.Sessions.{ensure_slot, mark_closing, remove_by_fd, mark_alive, is_joined}
use esp32_web_chat.Server.{send_error, close_client}
use esp32_web_chat.Presence.Queue.{broadcast_online_users}
use esp32_web_chat.Json.{chat_json_parse_object}
use esp32_web_chat.Protocol.Dispatch.{handle_json}

abbrev is_text : FrameType → Bool
is_text text_frame = true
is_text _ = false

abbrev is_close : FrameType → Bool
is_close close_frame = true
is_close _ = false

abbrev is_pong : FrameType → Bool
is_pong pong_frame = true
is_pong _ = false

-- `if (ctx->httpd_task_handle == NULL) ctx->httpd_task_handle = task;`
abbrev pub note_task : ℕ → AppContext → AppContext
note_task task c = record c { httpd_task_handle = some (first_known c.httpd_task_handle) }
  where
    first_known : Option ℕ → ℕ
    first_known none = task
    first_known (some t) = t

module _ (p : Platform) where
  open p use {Env, Node, current_task, close_socket, probe_frame, receive_frame, allocate}

  -- `if (chat_sessions_mark_closing(ctx, fd)) chat_sessions_broadcast_online_users(ctx);`, which is
  -- mark_broken_session but for its log.
  unfoldable pub mark_broken_session : ℤ → Run Env (Unit {0})
  mark_broken_session fd = do
    was_joined ← mark_closing p fd
    if was_joined then (do closed ← broadcast_online_users p; done tt) else done tt

  -- The start of the two handlers of a request: the task, and the slot.
  unfoldable pub enter : ℤ → Run Env Bool
  enter fd = do
    task ← call (λ e. (current_task e, e))
    modify_ctx (note_task task)
    ensure_slot p fd

  -- chat_ws_pre_handshake_handler; the request is never NULL.
  unfoldable pub pre_handshake : ℤ → Run Env EspErr
  pre_handshake fd = do admitted ← enter fd; if admitted then done esp_ok else done err_no_mem

  -- chat_ws_session_close_handler.
  unfoldable pub session_close_handler : ℤ → Run Env (Unit {0})
  session_close_handler fd = do
    removed ← remove_by_fd p fd
    closed ← if removed then broadcast_online_users p else done false
    if ltb_ℤ fd (pos 0) then done tt else tell (close_socket fd)

  -- What a pong frame does.
  unfoldable pub on_pong : ℤ → Bool → Run Env EspErr
  on_pong fd final = do
    joined ← if final then is_joined p fd else done false
    if joined
        then (do marked ← mark_alive p fd; done esp_ok)
        else (do close_client p fd; done esp_ok)

  -- `if (!chat_sessions_is_joined(ctx, fd)) chat_ws_close_client(ctx, fd);`
  unfoldable pub close_unjoined : ℤ → Run Env (Unit {0})
  close_unjoined fd = do joined ← is_joined p fd; if joined then done tt else close_client p fd

  -- An empty frame that is no pong.
  unfoldable pub on_empty : ℤ → Bool → Run Env EspErr
  on_empty fd is_empty_text =
      if is_empty_text
      then (do
        sent ← send_error p fd "bad_json" "Invalid JSON object"
        close_unjoined fd
        done esp_ok)
      else (do
        sent ← send_error p fd "bad_frame" "Only text WebSocket frames are supported"
        close_client p fd
        done esp_ok)

  -- A text frame: parse it, and dispatch it.
  unfoldable pub on_text : Config → ℤ → Bytes → Run Env EspErr
  on_text cfg fd payload = do
    parsed ← chat_json_parse_object p payload
    on_option parsed
        (do sent ← send_error p fd "bad_json" "Invalid JSON object"; close_unjoined fd; done esp_ok)
        (λ root. handle_json p cfg fd root)

  -- chat_ws_handler, once the payload is received.
  unfoldable pub on_payload : Config → ℤ → FrameHead → Bytes → Run Env EspErr
  on_payload cfg fd head payload =
      if is_close head.type
      then (do mark_broken_session fd; done esp_ok)
      else if is_pong head.type
      then on_pong fd head.final
      else if not (is_text head.type) || not head.final
      then (do
        sent ← send_error p fd "bad_frame" "Only text WebSocket frames are supported"
        close_client p fd
        done esp_ok)
      else on_text cfg fd payload

  -- chat_ws_handler on a frame that is not empty and not too large.
  unfoldable pub receive : Config → ℤ → FrameHead → Run Env EspErr
  receive cfg fd head = do
    allocated ← call (allocate (head.len + 1))
    if not allocated then done err_no_mem else (do
      r ← call (receive_frame fd head.len)
      if not (is_ok r.0) then (do mark_broken_session fd; done r.0) else on_payload cfg fd head r.1)

  -- chat_ws_handler, once the header is read.
  unfoldable pub on_frame : Config → ℤ → FrameHead → Run Env EspErr
  on_frame cfg fd head =
      if head.len == 0
      then if is_pong head.type
        then on_pong fd head.final
        else on_empty fd (is_text head.type && head.final)
      else if ltb cfg.max_ws_payload_bytes head.len
      then (do
        sent ← send_error p fd "payload_too_large" "WebSocket payload is too large"
        mark_broken_session fd
        done esp_fail)
      else receive cfg fd head

  -- chat_ws_handler.
  unfoldable pub chat_ws_handler : Config → ℤ → Run Env EspErr
  chat_ws_handler cfg fd = do
    admitted ← enter fd
    if not admitted then done esp_fail else (do
      r ← call (probe_frame fd)
      if is_ok r.0 then on_frame cfg fd r.1 else (do mark_broken_session fd; done r.0))
