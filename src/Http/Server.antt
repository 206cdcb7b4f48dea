-- ===== src/Http/Server.antt =====
-- chat_http_start_server of main/src/server/http_server.c.
use esp32_web_chat.Common.{Bool, true, false, List, [], ◌∷◌}
use esp32_web_chat.Config.{Config}
use esp32_web_chat.Platform.{Platform, Run, AppContext, ◌>>=◌, ◌>>◌, done, call, tell, modify_ctx}
use esp32_web_chat.Board.{
  Board, Route, http_get, http_post, root_page, favicon, style, script, websocket, settings_get,
  settings_post, redirect,
}
use esp32_web_chat.Http.Sockets.{max_open_sockets}

-- The handlers in the order in which they are registered.
abbrev pub routes : List Route
routes =
    record { uri = "/"; method = http_get; handler = root_page }
    ∷ record { uri = "/favicon.ico"; method = http_get; handler = favicon }
    ∷ record { uri = "/style.css"; method = http_get; handler = style }
    ∷ record { uri = "/script.js"; method = http_get; handler = script }
    ∷ record { uri = "/ws"; method = http_get; handler = websocket }
    ∷ record { uri = "/api/settings"; method = http_get; handler = settings_get }
    ∷ record { uri = "/api/settings"; method = http_post; handler = settings_post }
    ∷ record { uri = "/*"; method = http_get; handler = redirect }
    ∷ []

abbrev pub set_server : Bool → AppContext → AppContext
set_server s c = record c { server = s }

module _ (p : Platform) (b : Board (p.Env)) (cfg : Config) where
  open p use {Env}
  open b use {start_server, register_uri_handler}

  unfoldable pub register_all : List Route → Run Env (Unit {0})
  register_all [] = done tt
  register_all (r ∷ rs) = do tell (register_uri_handler r); register_all rs

  -- chat_http_start_server, whose context is never NULL.
  unfoldable pub http_start_server : Run Env Bool
  unfolding register_all max_open_sockets
  http_start_server = do
    started ← call (start_server (max_open_sockets cfg.lwip_max_sockets cfg.max_clients))
    elim started [
      | true ↦ do modify_ctx (set_server true); register_all routes; done true
      | false ↦ do modify_ctx (set_server false); done false
    ]
