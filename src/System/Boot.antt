-- ===== src/System/Boot.antt =====
-- The boot after the state is loaded, and the handlers that only answer, keep the invariants.
use esp32_web_chat.Common.{ℕ, ◌≡◌, Bool, true, false, List, [], ◌∷◌, Bytes, arith}
use esp32_web_chat.Config.{Config}
use esp32_web_chat.Platform.{Platform, Run, World, AppContext, done, modify_ctx}
use esp32_web_chat.Platform.Rules.{
  Keeps, keeps_rules, Keeps-bind, Keeps-then, Keeps-call, Keeps-done, Keeps-tell, Keeps-branch,
  Keeps-modify_ctx,
}
use esp32_web_chat.Board.{Board, Route, while_running, checked}
use esp32_web_chat.Softap.{configure_ap, softap_start}
use esp32_web_chat.Http.{send_json_response}
use esp32_web_chat.Http.Pages.{
  Asset, describe_settings, settings_get_handler, redirect_to_root_handler, asset_get_handler,
}
use esp32_web_chat.Http.Server.{set_server, register_all, routes, http_start_server}
use esp32_web_chat.Boot.{create_mutexes, start_tasks}
use esp32_web_chat.System.{IsSystemOk, IsSystemOk-AllowsTable}
use esp32_web_chat.System.Sends.{add-Keeps}
use esp32_web_chat.System.Presence.{start_heartbeat-Keeps}

module _ {Env : Type 0} {I : AppContext → Type 0} where
  pub Keeps-while_running : (c : Bool) (k : Run Env Bool) → Keeps I k → Keeps I (while_running c k)
  Keeps-while_running true k h = h
  Keeps-while_running false k h = Keeps-done false

  checked-Keeps_nil : Keeps {Env = Env} I (checked [])
  unfolding checked
  checked-Keeps_nil = Keeps-done true

  checked-Keeps_cons :
      (m : Run Env Bool) (ms : List (Run Env Bool))
      → Keeps I m
      → Keeps I (checked ms)
      → Keeps I (checked (m ∷ ms))
  unfolding checked
  checked-Keeps_cons m ms h k = Keeps-bind _ _ h (λ c. Keeps-while_running c (checked ms) k)

ruleset boot_rules = (keeps_rules, Keeps-while_running, checked-Keeps_nil, checked-Keeps_cons)

module _ (p : Platform) (b : Board (p.Env)) {I : AppContext → Type 0} where
  open p use {Env, Node}

  pub create_mutexes-Keeps : Keeps I (create_mutexes p b)
  unfolding create_mutexes
  create_mutexes-Keeps = search keeps_rules

  configure_ap-Keeps : (cfg : Config) (netif : b.Netif) → Keeps I (configure_ap p b cfg netif)
  unfolding configure_ap
  configure_ap-Keeps cfg netif = search boot_rules depth 40

  pub softap_start-Keeps : (cfg : Config) → Keeps I (softap_start p b cfg)
  unfolding softap_start
  softap_start-Keeps cfg = search (boot_rules, configure_ap-Keeps) depth 40

  send_json_response-Keeps : (n : Node) → Keeps I (send_json_response p n)
  unfolding send_json_response
  send_json_response-Keeps n = search keeps_rules depth 10

  describe_settings-Keeps :
      (ssid : Bytes) (channel : ℕ) (set : Bool) (root : Node)
      → Keeps I (describe_settings p b ssid channel set root)
  unfolding describe_settings
  describe_settings-Keeps ssid channel set root =
      search (keeps_rules, add-Keeps p, send_json_response-Keeps) depth 30

  pub settings_get_handler-Keeps : Keeps I (settings_get_handler p b)
  unfolding settings_get_handler
  settings_get_handler-Keeps = search (keeps_rules, describe_settings-Keeps) depth 12

  pub redirect_to_root_handler-Keeps : Keeps I (redirect_to_root_handler p b)
  unfolding redirect_to_root_handler
  redirect_to_root_handler-Keeps = search keeps_rules depth 10

  pub asset_get_handler-Keeps :
      (embedded : Asset → Bytes) (a : Asset) → Keeps I (asset_get_handler p b embedded a)
  unfolding asset_get_handler
  asset_get_handler-Keeps embedded a = search keeps_rules depth 10

  register_all-Keeps : (cfg : Config) (rs : List Route) → Keeps I (register_all p b cfg rs)
  unfolding register_all
  register_all-Keeps cfg [] = Keeps-done _
  register_all-Keeps cfg (r ∷ rs) = Keeps-then _ _ (Keeps-tell _) (register_all-Keeps cfg rs)

module _ (p : Platform) (b : Board (p.Env)) (cfg : Config) where
  open p use {Env}

  set_server-Keeps : (s : Bool) → Keeps {Env = Env} IsSystemOk (modify_ctx (set_server s))
  set_server-Keeps s =
      Keeps-modify_ctx _ λ c h. record { table = h.table; store = h.store; usable = h.usable }

  http_start_server-Keeps : Keeps IsSystemOk (http_start_server p b cfg)
  unfolding http_start_server
  http_start_server-Keeps = Keeps-bind _ _ (Keeps-call _) (λ started.
      Keeps-branch started _ _ (Keeps-then _ _ (set_server-Keeps false) (Keeps-done _)) (
        Keeps-then _ _ (set_server-Keeps true)
          (Keeps-then _ _ (register_all-Keeps p b cfg routes) (Keeps-done _))))

  pub start_tasks-Keeps : Keeps IsSystemOk (start_tasks p b cfg)
  unfolding start_tasks
  start_tasks-Keeps = Keeps-then _ _ (Keeps-tell _) (
      Keeps-then _ _ (start_heartbeat-Keeps p IsSystemOk-AllowsTable)
        (Keeps-bind _ _ http_start_server-Keeps (λ s. Keeps-done _)))

-- What holds where a piece of the boot goes on.
pub Running-while :
    {Env : Type 0} (running : Bool) (k : Run Env Bool) (w : World Env)
    → ((k w).0 ≡ true → IsSystemOk (k w).1.ctx)
    → (while_running running k w).0 ≡ true
    → IsSystemOk (while_running running k w).1.ctx
unfolding done
Running-while true k w h = h
Running-while false k w h = λ q. absurd (ground (arith, q))
