-- ===== src/System/Frames.antt =====
-- The handlers of main/src/server/websocket_server.c keep the invariant of the system.
use esp32_web_chat.Common.{ℕ, Bool, Bytes}
use esp32_web_chat.Common.Int.{ℤ}
use esp32_web_chat.Config.{Config}
use esp32_web_chat.Platform.{Platform, AppContext, FrameHead, modify_ctx}
use esp32_web_chat.Platform.Rules.{
  Keeps, keeps_rules, Keeps-bind, Keeps-if, Keeps-done, Keeps-modify_ctx,
}
use esp32_web_chat.Json.{chat_json_parse_object}
use esp32_web_chat.Handler.{
  note_task, mark_broken_session, enter, pre_handshake, session_close_handler, on_pong,
  close_unjoined, on_empty, on_text, on_payload, receive, on_frame, chat_ws_handler,
}
use esp32_web_chat.System.{AllowsTable, AllowsStore}
use esp32_web_chat.System.Sends.{
  send_error-Keeps, close_client-Keeps, mark_closing-Keeps, remove_by_fd-Keeps, mark_alive-Keeps,
  is_joined-Keeps, ensure_slot-Keeps,
}
use esp32_web_chat.System.Presence.{broadcast_online_users-Keeps}
use esp32_web_chat.System.Handlers.{handle_json-Keeps}

module _ (p : Platform) {I : AppContext → Type 0} (t : AllowsTable I) where
  open p use {Env, Node}

  pub chat_json_parse_object-Keeps : (payload : Bytes) → Keeps I (chat_json_parse_object p payload)
  unfolding chat_json_parse_object
  chat_json_parse_object-Keeps payload = search keeps_rules depth 10

  mark_broken_session-Keeps : (fd : ℤ) → Keeps I (mark_broken_session p fd)
  unfolding mark_broken_session
  mark_broken_session-Keeps fd = Keeps-bind _ _ (mark_closing-Keeps p t fd) (λ was_joined.
      Keeps-if was_joined _ _
        (λ y. Keeps-bind _ _ (broadcast_online_users-Keeps p t) (λ closed. Keeps-done _))
        (λ n. Keeps-done _))

  note_task-Keeps : (task : ℕ) → Keeps {Env = Env} I (modify_ctx (note_task task))
  note_task-Keeps task = Keeps-modify_ctx _ λ c h. t.with_flags c _ _ _ _ h

  enter-Keeps : (fd : ℤ) → Keeps I (enter p fd)
  unfolding enter
  enter-Keeps fd = search (keeps_rules, note_task-Keeps, ensure_slot-Keeps p t) depth 10

  pub pre_handshake-Keeps : (fd : ℤ) → Keeps I (pre_handshake p fd)
  unfolding pre_handshake
  pre_handshake-Keeps fd = search (keeps_rules, enter-Keeps)

  pub session_close_handler-Keeps : (fd : ℤ) → Keeps I (session_close_handler p fd)
  unfolding session_close_handler
  session_close_handler-Keeps fd = Keeps-bind _ _ (remove_by_fd-Keeps p t fd) (λ removed.
      Keeps-bind _ _
        (Keeps-if removed _ _ (λ y. broadcast_online_users-Keeps p t) (λ n. Keeps-done _))
        (λ closed. search keeps_rules))

  on_pong-Keeps : (fd : ℤ) (final : Bool) → Keeps I (on_pong p fd final)
  unfolding on_pong
  on_pong-Keeps fd final =
      search (keeps_rules, is_joined-Keeps p t, close_client-Keeps p t, mark_alive-Keeps p t) depth
        10

  close_unjoined-Keeps : (fd : ℤ) → Keeps I (close_unjoined p fd)
  unfolding close_unjoined
  close_unjoined-Keeps fd =
      search (keeps_rules, is_joined-Keeps p t, close_client-Keeps p t) depth 10

  on_empty-Keeps : (fd : ℤ) (b : Bool) → Keeps I (on_empty p fd b)
  unfolding on_empty
  on_empty-Keeps fd b =
      search (keeps_rules, send_error-Keeps p, close_unjoined-Keeps, close_client-Keeps p t) depth
        10

  module _ (s : AllowsStore I) (cfg : Config) where
    on_text-Keeps : (fd : ℤ) (payload : Bytes) → Keeps I (on_text p cfg fd payload)
    unfolding on_text
    on_text-Keeps fd payload =
        search
          (
            keeps_rules,
            chat_json_parse_object-Keeps,
            send_error-Keeps p,
            close_unjoined-Keeps,
            handle_json-Keeps p cfg t s,
          )
          depth 14

    on_payload-Keeps :
        (fd : ℤ) (head : FrameHead) (payload : Bytes) → Keeps I (on_payload p cfg fd head payload)
    unfolding on_payload
    on_payload-Keeps fd head payload =
        search
          (
            keeps_rules,
            mark_broken_session-Keeps,
            on_pong-Keeps,
            send_error-Keeps p,
            close_client-Keeps p t,
            on_text-Keeps,
          )
          depth 14

    receive-Keeps : (fd : ℤ) (head : FrameHead) → Keeps I (receive p cfg fd head)
    unfolding receive
    receive-Keeps fd head =
        search (keeps_rules, mark_broken_session-Keeps, on_payload-Keeps) depth 14

    on_frame-Keeps : (fd : ℤ) (head : FrameHead) → Keeps I (on_frame p cfg fd head)
    unfolding on_frame
    on_frame-Keeps fd head =
        search
          (
            keeps_rules,
            on_pong-Keeps,
            on_empty-Keeps,
            send_error-Keeps p,
            mark_broken_session-Keeps,
            receive-Keeps,
          )
          depth 14

    pub chat_ws_handler-Keeps : (fd : ℤ) → Keeps I (chat_ws_handler p cfg fd)
    unfolding chat_ws_handler
    chat_ws_handler-Keeps fd =
        search (keeps_rules, enter-Keeps, on_frame-Keeps, mark_broken_session-Keeps) depth 14
