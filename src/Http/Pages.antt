-- ===== src/Http/Pages.antt =====
-- The handlers of main/src/server/http_server.c that only answer: the files of the web page, the
-- settings, and the redirect to the page.
use Prim.Native.String.{String}
use esp32_web_chat.Common.{
  ℕ, ◌+◌, ◌/◌, ◌%◌, Bool, true, not, [], ◌∷◌, ◌++◌, Bytes, codes, is_empty, take, ltb,
  if◌then◌else◌,
}
use esp32_web_chat.Common.Int.{pos}
use esp32_web_chat.Config.{
  max_wifi_ssid_len, min_wifi_pass_len, max_wifi_pass_len, min_admin_pass_len,
}
use esp32_web_chat.Platform.{
  Platform, Run, EspErr, esp_ok, err_no_mem, ◌>>=◌, ◌>>◌, done, call, tell, get_ctx, on_option,
}
use esp32_web_chat.Board.{Board, file, found}
use esp32_web_chat.Server.{add}
use esp32_web_chat.Http.{send_json_response}

-- The files that the build embeds.
pub data Asset : Type 0 where
  index_html favicon_ico style_css script_js : Asset

abbrev pub content_type : Asset → String
content_type index_html = "text/html"
content_type favicon_ico = "image/x-icon"
content_type style_css = "text/css"
content_type script_js = "application/javascript"

-- `%d` of a byte.
unfoldable pub decimal : ℕ → Bytes
decimal n =
    if ltb n 10
    then (n + 48) ∷ []
    else if ltb n 100
    then (n / 10 + 48) ∷ (n % 10 + 48) ∷ []
    else (n / 100 + 48) ∷ (n / 10 % 10 + 48) ∷ (n % 10 + 48) ∷ []

-- IPSTR
unfoldable pub dotted : Bytes → Bytes
unfolding decimal
dotted [] = []
dotted (n ∷ []) = decimal n
dotted (n ∷ ns) = decimal n ++ 46 ∷ dotted ns

-- `char location_url[32]`, in which snprintf keeps room for the terminator.
abbrev pub location_bytes : ℕ
location_bytes = 31

unfoldable pub location_url : Bytes → Bytes
unfolding dotted
location_url ip = take location_bytes (codes "http://" ++ dotted ip ++ 47 ∷ [])

module _ (p : Platform) (b : Board (p.Env)) where
  open p use {Env, Node, create_object, add_bool, add_string, add_number, respond_error}
  open b use {ap_address, send_page}

  unfoldable pub redirect_to_root_handler : Run Env EspErr
  unfolding location_url
  redirect_to_root_handler = do
    ip ← call ap_address
    tell (send_page (found (location_url ip)))
    done esp_ok

  -- settings_get_handler once its object is there, from the fields of the settings that it reads.
  unfoldable pub describe_settings : Bytes → ℕ → Bool → Node → Run Env EspErr
  describe_settings ssid channel password_set root0 = do
    root1 ← add p (λ n. add_bool n "ok" true) root0
    root2 ← add p (λ n. add_string n "ssid" ssid) root1
    root3 ← add p (λ n. add_number n "channel" (pos channel)) root2
    root4 ← add p (λ n. add_bool n "passwordSet" password_set) root3
    root5 ← add p (λ n. add_number n "maxSsidLength" (pos max_wifi_ssid_len)) root4
    root6 ← add p (λ n. add_number n "minPasswordLength" (pos min_wifi_pass_len)) root5
    root7 ← add p (λ n. add_number n "maxPasswordLength" (pos max_wifi_pass_len)) root6
    root8 ← add p (λ n. add_number n "minAdminPasswordLength" (pos min_admin_pass_len)) root7
    send_json_response p root8

  -- settings_get_handler.
  unfoldable pub settings_get_handler : Run Env EspErr
  unfolding describe_settings
  settings_get_handler = do
    created ← call create_object
    on_option created
        (do tell (respond_error "Failed to create settings response"); done err_no_mem)
        λ root. do
          ctx ← get_ctx
          describe_settings ctx.settings.ssid ctx.settings.channel
              (not (is_empty ctx.settings.password)) root

module _ (p : Platform) (b : Board (p.Env)) (embedded : Asset → Bytes) where
  open p use {Env}
  open b use {send_page}

  -- root_get_handler, favicon_get_handler, style_get_handler, script_get_handler.
  unfoldable pub asset_get_handler : Asset → Run Env EspErr
  asset_get_handler a = do tell (send_page (file (content_type a) (embedded a))); done esp_ok
