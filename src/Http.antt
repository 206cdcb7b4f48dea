-- ===== src/Http.antt =====
-- The settings page's API of main/src/server/http_server.c: reading a request's body, and changing the
-- settings.
pub mod Password
pub mod Valid
pub mod Body
pub mod Sockets
pub mod Pages
pub mod Server
pub mod Secret
use Prim.Native.String.{String}
use esp32_web_chat.Common.{
  ℕ, zero, suc, ◌+◌, ◌-◌, Bool, true, false, not, ◌&&◌, ◌||◌, Option, none, some, List, [], ◌∷◌,
  ◌++◌, Bytes, codes, bytes_eq, is_empty, ltb, leb, ◌==◌, if◌then◌else◌, length, take,
}
use esp32_web_chat.Common.Int.{ℤ, pos, negsuc, ltb_ℤ, leb_ℤ}
use esp32_web_chat.Config.{
  ChatSettings, max_wifi_ssid_len, max_wifi_pass_len, min_admin_pass_len, max_admin_pass_len,
}
use esp32_web_chat.Slots.{copy_bounded}
use esp32_web_chat.Platform.{
  Platform, Run, AppContext, EspErr, esp_ok, err_no_mem, is_ok, ◌>>=◌, ◌>>◌, done, call, tell,
  get_ctx, modify_ctx, on_option,
}
use esp32_web_chat.Settings.{valid_wifi_password, save}
use esp32_web_chat.Server.{add}
use esp32_web_chat.Json.{json_string_in_range, chat_json_parse_object, text_is}

-- SETTINGS_BODY_BYTES
abbrev pub settings_body_bytes : ℕ
settings_body_bytes = 512

-- What is wrong with a request: the code and the message of send_http_error.
pub record Refusal : Type 0 where
  pub code : String
  pub message : String

-- A change of the settings, or what is wrong with it.
pub data Change : Type 0 where
  refuse : Refusal → Change
  accept : ChatSettings → Change

-- The next check of settings_post_handler, where the ones before passed.
abbrev pub and_then : Change → (ChatSettings → Change) → Change
and_then (refuse r) f = refuse r
and_then (accept s) f = f s

-- A value of type int as a uint8_t, where it is from 1 to 13.
abbrev pub channel_of : ℤ → ℕ
channel_of (pos n) = n
channel_of (negsuc n) = 0

abbrev pub or_empty : Option Bytes → Bytes
or_empty none = []
or_empty (some t) = t

-- The password of the network, where it is given: an empty one changes nothing.
unfoldable pub set_password : Option Bytes → Bool → ChatSettings → Change
unfolding valid_wifi_password
set_password none is_text s =
    refuse (record { code = "bad_password"; message = "Password must be a string" })
set_password (some t) is_text s =
    if not is_text
    then refuse (record { code = "bad_password"; message = "Password must be a string" })
    else if is_empty t
    then accept s
    else if not (valid_wifi_password t)
    then refuse (record { code = "bad_password"; message = "WPA2 password must be 8 to 63 bytes" })
    else accept (record s { password = copy_bounded s.password (max_wifi_pass_len + 1) (some t) })

module _ (p : Platform) where
  open p use {
    Env, Node, get_item_any_case, value_string, value_int, is_object, is_string, is_number, is_true,
    create_object, add_bool, add_string, print_unformatted, allocate, request_recv, respond,
    respond_error, restart_soon,
  }

  -- The loop of read_request_body, with the bytes read so far. Each round reads a byte at least, so
  -- as many rounds as there are bytes are enough.
  unfoldable pub receive_body : ℕ → ℕ → Bytes → Run Env (Option Bytes)
  receive_body content_len zero body =
      done (if ltb (length body) content_len then none else some body)
  receive_body content_len (suc rounds) body =
      if ltb (length body) content_len
      then (do
        r ← call (request_recv (content_len - length body))
        if leb_ℤ r.0 (pos 0) then done none else receive_body content_len rounds (body ++ r.1))
      else done (some body)

  -- read_request_body.
  unfoldable pub read_request_body : ℕ → ℕ → Run Env (Option Bytes)
  read_request_body content_len max_len =
      if content_len == 0 || ltb max_len content_len then done none else (do
        allocated ← call (allocate (content_len + 1))
        if allocated then receive_body content_len content_len [] else done none)

  -- send_json_response.
  unfoldable pub send_json_response : Node → Run Env EspErr
  send_json_response root = do
    printed ← call (print_unformatted root)
    on_option printed (do tell (respond_error "Failed to encode JSON"); done err_no_mem)
        (λ payload. call (respond payload))

  -- send_http_error, whose code and message are never NULL.
  unfoldable pub send_http_error : Refusal → Run Env EspErr
  send_http_error r = do
    created ← call create_object
    on_option created (do tell (respond_error "Failed to create error response"); done err_no_mem)
        (λ root0. do
          root1 ← add p (λ n. add_bool n "ok" false) root0
          root2 ← add p (λ n. add_string n "code" (codes r.code)) root1
          root3 ← add p (λ n. add_string n "message" (codes r.message)) root2
          send_json_response root3)

  -- The text of an item that may be NULL.
  abbrev pub text_at : Option Node → Option Bytes
  text_at none = none
  text_at (some n) = value_string n

  -- `cJSON_IsTrue` of an item that may be NULL.
  abbrev pub is_set : Option Node → Bool
  is_set none = false
  is_set (some n) = is_true n

  -- The test of the administrator's password.
  unfoldable pub is_authorized : Node → ChatSettings → Bool
  unfolding json_string_in_range
  is_authorized root s =
      let admin = get_item_any_case root "adminPassword" in
      json_string_in_range p admin max_admin_pass_len false
      && text_is (text_at admin) s.admin_password

  unfoldable pub change_ssid : Option Node → ChatSettings → Change
  unfolding json_string_in_range
  change_ssid none s = accept s
  change_ssid (some ssid) s =
      if not (json_string_in_range p (some ssid) max_wifi_ssid_len false)
      then refuse (record { code = "bad_ssid"; message = "SSID must be 1 to 32 bytes" })
      else accept
          (record s { ssid = copy_bounded s.ssid (max_wifi_ssid_len + 1) (value_string ssid) })

  unfoldable pub change_channel : Option Node → ChatSettings → Change
  change_channel none s = accept s
  change_channel (some channel) s =
      if not (is_number channel)
        || ltb_ℤ (value_int channel) (pos 1)
        || ltb_ℤ (pos 13) (value_int channel)
      then refuse
          (record { code = "bad_channel"; message = "Wi-Fi channel must be between 1 and 13" })
      else accept (record s { channel = channel_of (value_int channel) })

  unfoldable pub change_password : Bool → Option Node → ChatSettings → Change
  unfolding set_password
  change_password true password s = accept (record s { password = [] })
  change_password false none s = accept s
  change_password false (some password) s =
      set_password (value_string password) (is_string password) s

  -- The new password of the administrator: an item that is no string, or empty, changes nothing.
  unfoldable pub change_admin : Option Node → ChatSettings → Change
  unfolding json_string_in_range
  change_admin none s = accept s
  change_admin (some admin) s =
      let t = or_empty (value_string admin) in
      if is_string admin && not (is_empty t)
      then if not (json_string_in_range p (some admin) max_admin_pass_len false)
          || ltb (length t) min_admin_pass_len
        then refuse
            (record { code = "bad_admin_password"; message = "New admin password is too short" })
        else accept (record s {
          admin_password = copy_bounded s.admin_password (max_admin_pass_len + 1) (some t);
        })
      else accept s

  -- The checks of settings_post_handler in their order, over a copy of the settings.
  unfoldable pub updated_settings : Node → ChatSettings → Change
  unfolding is_authorized change_ssid change_channel change_password change_admin
  updated_settings root s =
      if not (is_authorized root s)
      then refuse (record { code = "unauthorized"; message = "Admin password is incorrect" })
      else and_then
          (and_then
            (and_then (change_ssid (get_item_any_case root "ssid") s)
              (change_channel (get_item_any_case root "channel")))
            (change_password (is_set (get_item_any_case root "openNetwork"))
              (get_item_any_case root "password")))
          (change_admin (get_item_any_case root "newAdminPassword"))

  abbrev restart_text : Bool → String
  restart_text true = "Settings saved. ESP32 is restarting."
  restart_text false = "Settings saved. Restart the ESP32 to apply Wi-Fi changes."

  -- The end of settings_post_handler: the answer, and the restart.
  unfoldable pub confirm : Bool → Run Env EspErr
  confirm reboot = do
    created ← call create_object
    on_option created (done err_no_mem) λ root0. do
      root1 ← add p (λ n. add_bool n "ok" true) root0
      root2 ← add p (λ n. add_bool n "rebootRequired" true) root1
      root3 ← add p (λ n. add_bool n "restarting" reboot) root2
      root4 ← add p (λ n. add_string n "message" (codes (restart_text reboot))) root3
      ret ← send_json_response root4
      if reboot then (do tell restart_soon; done ret) else done ret

  -- From the saving of the settings on.
  unfoldable pub save_and_confirm : ChatSettings → Bool → Run Env EspErr
  save_and_confirm s reboot = do
    ret ← save p s
    if is_ok ret
        then (do modify_ctx λ c. record c { settings = s }; confirm reboot)
        else send_http_error
            (record { code = "save_failed"; message = "Unable to save settings to NVS" })

  unfoldable pub apply_change : Change → Bool → Run Env EspErr
  apply_change (refuse r) reboot = send_http_error r
  apply_change (accept s) reboot = save_and_confirm s reboot

  -- settings_post_handler on a request with a body of so many bytes.
  unfoldable pub settings_post_handler : ℕ → Run Env EspErr
  settings_post_handler content_len = do
    read ← read_request_body content_len settings_body_bytes
    on_option read
        (send_http_error
          (record { code = "bad_body"; message = "Settings payload is empty or too large" }))
        λ body. do
          parsed ← chat_json_parse_object p body
          on_option parsed
              (send_http_error
                (record { code = "bad_json"; message = "Settings payload must be a JSON object" }))
              λ root. do
                ctx ← get_ctx
                apply_change (updated_settings root ctx.settings)
                    (is_set (get_item_any_case root "reboot"))
