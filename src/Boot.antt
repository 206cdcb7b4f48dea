-- ===== src/Boot.antt =====
-- app_main of main/src/main.c, and the functions that FreeRTOS and the HTTP server call after it.
use esp32_web_chat.Common.{
  ℕ, Bool, true, false, ◌&&◌, none, [], ◌∷◌, Bytes, replicate, if◌then◌else◌,
}
use esp32_web_chat.Common.Int.{ℤ, pos}
use esp32_web_chat.Config.{Config}
use esp32_web_chat.Slots.{zero_slot}
use esp32_web_chat.History.{no_message}
use esp32_web_chat.Platform.{
  Platform, Run, AppContext, Work, presence_broadcast, heartbeat_sweep, ◌>>=◌, ◌>>◌, done, call,
  tell, modify_ctx, put_ctx, is_ok, needs_erase,
}
use esp32_web_chat.IdStore.{IdState, load}
use esp32_web_chat.Settings
use esp32_web_chat.Presence.Queue.{
  presence_broadcast_work, heartbeat_sweep_work, heartbeat_round, start_heartbeat,
}
use esp32_web_chat.Handler.{pre_handshake, session_close_handler, chat_ws_handler}
use esp32_web_chat.Http.{settings_post_handler}
use esp32_web_chat.Http.Pages.{
  Asset, settings_get_handler, redirect_to_root_handler, asset_get_handler,
}
use esp32_web_chat.Http.Server.{http_start_server}
use esp32_web_chat.Board.{Board, error_check, while_running, checked}
use esp32_web_chat.Softap.{softap_start}

-- g_app_context after the memset, with `boot_start_id = 1`.
abbrev pub zero_context : Config → AppContext
zero_context cfg = record {
  client_slots = replicate cfg.max_clients zero_slot;
  presence_broadcast_pending = false;
  heartbeat_sweep_pending = false;
  last_heartbeat_sweep_s = pos 0;
  messages = record {
    message_buffer = replicate cfg.max_messages no_message;
    message_id_counter = 0;
    message_id_counter_valid = false;
    boot_start_id = 1;
    message_buffer_head = 0;
  };
  settings = record { ssid = []; password = []; channel = 0; admin_password = [] };
  server = false;
  httpd_task_handle = none;
}

-- The three assignments after chat_message_ids_load.
abbrev pub adopt_ids : IdState → AppContext → AppContext
adopt_ids st c = record c {
  messages = record (c.messages) {
    message_id_counter = st.current_id;
    message_id_counter_valid = st.counter_loaded;
    boot_start_id = st.boot_start_id;
  };
}

-- What the HTTP server's task and the heartbeat task run: the handlers, the queued work, and a round
-- of the heartbeat task.
pub data Event : Type 0 where
  handshake frame session_closed : ℤ → Event
  settings_post : ℕ → Event
  settings_read unknown_page : Event
  asset_read : Asset → Event
  queued : Work → Event
  heartbeat : Event

module _ (p : Platform) (cfg : Config) where
  open p use {Env}

  -- app_main from chat_message_ids_load to chat_settings_load.
  unfoldable pub load_state : Run Env (Unit {0})
  load_state = do r ← load p; modify_ctx (adopt_ids r.1); Settings.load p cfg

  unfoldable pub run_work : Work → Run Env (Unit {0})
  run_work presence_broadcast = presence_broadcast_work p
  run_work heartbeat_sweep = heartbeat_sweep_work p cfg.heartbeat_interval_s

module _ (p : Platform) (b : Board (p.Env)) where
  open p use {Env}
  open b use {flash_init, flash_erase, create_mutex}

  -- app_main up to its first ESP_ERROR_CHECK(ret): NVS is erased where its pages do not serve.
  unfoldable pub init_flash : Run Env Bool
  init_flash = do
    ret ← call flash_init
    if needs_erase ret
        then checked (error_check flash_erase ∷ error_check flash_init ∷ [])
        else done (is_ok ret)

  -- The two mutexes and the assert after them.
  unfoldable pub create_mutexes : Run Env Bool
  create_mutexes = do
    client_mutex ← call create_mutex
    message_mutex ← call create_mutex
    done (client_mutex && message_mutex)

module _ (p : Platform) (b : Board (p.Env)) (cfg : Config) where
  open p use {Env}
  open b use {start_dns_task}

  -- app_main after the access point, with chat_dns_start.
  unfoldable pub start_tasks : Run Env Bool
  unfolding http_start_server
  start_tasks = do
    tell start_dns_task
    start_heartbeat p
    started ← http_start_server p b cfg
    done true

  -- app_main from the memset on.
  unfoldable pub start_up : Run Env Bool
  unfolding create_mutexes load_state softap_start start_tasks
  start_up = do
    put_ctx (zero_context cfg)
    running ← create_mutexes p b
    while_running running
        (do load_state p cfg; connected ← softap_start p b cfg; while_running connected start_tasks)

  -- app_main: whether it returns, and does not stop the program.
  unfoldable pub app_main : Run Env Bool
  unfolding init_flash start_up
  app_main = do running ← init_flash p b; while_running running start_up

module _ (p : Platform) (b : Board (p.Env)) (cfg : Config) (embedded : Asset → Bytes) where
  open p use {Env}

  -- The function that an event calls; its result goes to the caller outside the program.
  unfoldable pub perform : Event → Run Env (Unit {0})
  perform (handshake fd) = do ret ← pre_handshake p fd; done tt
  perform (frame fd) = do ret ← chat_ws_handler p cfg fd; done tt
  perform (session_closed fd) = session_close_handler p fd
  perform (settings_post len) = do ret ← settings_post_handler p len; done tt
  perform (queued work) = run_work p cfg work
  perform settings_read = do ret ← settings_get_handler p b; done tt
  perform unknown_page = do ret ← redirect_to_root_handler p b; done tt
  perform (asset_read a) = do ret ← asset_get_handler p b embedded a; done tt
  perform heartbeat = heartbeat_round p
