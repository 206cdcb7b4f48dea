-- ===== src/System/Requests.antt =====
-- Changing the settings over HTTP keeps the invariant of the system.
use esp32_web_chat.Common.{ℕ, zero, suc, ◌≡◌, refl, subst, Bool, Bytes, arith}
use esp32_web_chat.Config.{ChatSettings}
use esp32_web_chat.Platform.{
  Platform, World, AppContext, is_ok, ◌>>=◌, ◌>>◌, done, get_ctx, call, tell, modify_ctx,
}
use esp32_web_chat.Platform.Rules.{
  Keeps, keeps_rules, Keeps-bind, Keeps-then, Keeps-if, Keeps-done, Keeps-modify_ctx,
}
use esp32_web_chat.Settings.{save}
use esp32_web_chat.Settings.Valid.{IsUsable}
use esp32_web_chat.Http.{
  Refusal, Change, refuse, accept, receive_body, read_request_body, send_json_response,
  send_http_error, updated_settings, confirm, save_and_confirm, apply_change, settings_post_handler,
}
use esp32_web_chat.Http.Valid.{updated_settings-accept}
use esp32_web_chat.System.{AllowsTable, AllowsSettings}
use esp32_web_chat.System.Sends.{add-Keeps}
use esp32_web_chat.System.Frames.{chat_json_parse_object-Keeps}

module _ (p : Platform) {I : AppContext → Type 0} where
  open p use {Env, Node}

  receive_body-Keeps : (len rounds : ℕ) (body : Bytes) → Keeps I (receive_body p len rounds body)
  unfolding receive_body
  receive_body-Keeps len zero body = Keeps-done _
  receive_body-Keeps len (suc rounds) body =
      search (keeps_rules, receive_body-Keeps len rounds) depth 10

  read_request_body-Keeps : (len max : ℕ) → Keeps I (read_request_body p len max)
  unfolding read_request_body
  read_request_body-Keeps len max = search (keeps_rules, receive_body-Keeps) depth 10

  send_json_response-Keeps : (root : Node) → Keeps I (send_json_response p root)
  unfolding send_json_response
  send_json_response-Keeps root = search keeps_rules depth 10

  send_http_error-Keeps : (r : Refusal) → Keeps I (send_http_error p r)
  unfolding send_http_error
  send_http_error-Keeps r = search (keeps_rules, add-Keeps p, send_json_response-Keeps) depth 14

  confirm-Keeps : (reboot : Bool) → Keeps I (confirm p reboot)
  unfolding confirm
  confirm-Keeps reboot = search (keeps_rules, add-Keeps p, send_json_response-Keeps) depth 14

  save-Keeps : (s : ChatSettings) → Keeps I (save p s)
  unfolding save ◌>>=◌ ◌>>◌ done call tell
  save-Keeps s = record { at = λ w h. subst I (same w) h }
    where
      same : (w : World Env) → w.ctx ≡ (save p s w).1.ctx
      same w = ground arith

module _ (p : Platform) {I : AppContext → Type 0} (t : AllowsTable I) (a : AllowsSettings I) where
  open p use {Env, Node}

  set_settings-Keeps :
      (s : ChatSettings)
      → IsUsable s
      → Keeps {Env = Env} I (modify_ctx λ c. record c { settings = s })
  set_settings-Keeps s u = Keeps-modify_ctx _ λ c h. a.with_settings c s h u

  save_and_confirm-Keeps :
      (s : ChatSettings) (reboot : Bool) → IsUsable s → Keeps I (save_and_confirm p s reboot)
  unfolding save_and_confirm
  save_and_confirm-Keeps s reboot u = Keeps-bind _ _ (save-Keeps p s) (λ ret.
      Keeps-if (is_ok ret) _ _
        (λ y. Keeps-then _ _ (set_settings-Keeps s u) (confirm-Keeps p reboot))
        (λ n. send_http_error-Keeps p _))

  apply_change-Keeps :
      (c : Change) (reboot : Bool)
      → ((s : ChatSettings) → c ≡ accept s → IsUsable s)
      → Keeps I (apply_change p c reboot)
  unfolding apply_change
  apply_change-Keeps (refuse r) reboot k = send_http_error-Keeps p r
  apply_change-Keeps (accept s) reboot k = save_and_confirm-Keeps s reboot (k s refl)

  -- The change is made of the settings that stand there.
  change_here-Keeps :
      (root : Node) (reboot : Bool)
      → Keeps I (get_ctx >>= λ ctx. apply_change p (updated_settings p root ctx.settings) reboot)
  unfolding ◌>>=◌ get_ctx
  change_here-Keeps root reboot = record {
    at = λ w h.
        (apply_change-Keeps (updated_settings p root w.ctx.settings) reboot
            (λ s e. (updated_settings-accept p root w.ctx.settings s (a.usable w.ctx h) e).1)).at
          w h;
  }

  pub settings_post_handler-Keeps : (len : ℕ) → Keeps I (settings_post_handler p len)
  unfolding settings_post_handler
  settings_post_handler-Keeps len =
      search
        (
          keeps_rules,
          read_request_body-Keeps p,
          send_http_error-Keeps p,
          chat_json_parse_object-Keeps p t,
          change_here-Keeps,
        )
        depth 14
