-- ===== src/Settings.antt =====
-- main/src/common/settings.c: the settings of the access point and of the administrator.
pub mod Valid
pub mod Reboot
use esp32_web_chat.Common.{
  ℕ, ◌+◌, ◌%◌, Bool, true, false, not, ◌&&◌, ◌||◌, Option, some, Bytes, codes, if◌then◌else◌, ltb,
  leb, ◌==◌, length, is_empty,
}
use esp32_web_chat.Config.{
  Config, ChatSettings, max_wifi_ssid_len, min_wifi_pass_len, max_wifi_pass_len, min_admin_pass_len,
  max_admin_pass_len,
}
use esp32_web_chat.Slots.{copy_bounded}
use esp32_web_chat.Platform.{
  Platform, Run, World, AppContext, EspErr, is_ok, ◌>>=◌, ◌>>◌, done, call, tell, modify_ctx,
  get_ctx,
}

-- chat_settings_valid_wifi_password.
unfoldable pub valid_wifi_password : Bytes → Bool
valid_wifi_password password =
    let len = length password in
    len == 0 || (leb min_wifi_pass_len len && leb len max_wifi_pass_len)

-- The four copies at the start of chat_settings_reset_to_defaults; a uint8_t takes the channel.
unfoldable pub copy_defaults : Config → ChatSettings → ChatSettings
unfolding copy_bounded
copy_defaults c s = record {
  ssid = copy_bounded s.ssid (max_wifi_ssid_len + 1) (some c.wifi_ssid);
  password = copy_bounded s.password (max_wifi_pass_len + 1) (some c.wifi_password);
  channel = c.wifi_channel % 256;
  admin_password = copy_bounded s.admin_password (max_admin_pass_len + 1) (some c.admin_password);
}

-- The four repairs after them.
unfoldable pub repair_ssid : Bytes → Bytes
unfolding copy_bounded
repair_ssid t =
    if is_empty t then copy_bounded t (max_wifi_ssid_len + 1) (some (codes "ESPChat")) else t

unfoldable pub repair_password : Bytes → Bytes
unfolding copy_bounded valid_wifi_password
repair_password t =
    if not (valid_wifi_password t)
    then copy_bounded t (max_wifi_pass_len + 1) (some (codes "esp-chat"))
    else t

unfoldable pub repair_channel : ℕ → ℕ
repair_channel n = if ltb n 1 || ltb 13 n then 1 else n

unfoldable pub repair_admin_password : Bytes → Bytes
unfolding copy_bounded
repair_admin_password t =
    if ltb (length t) min_admin_pass_len
    then copy_bounded t (max_admin_pass_len + 1) (some (codes "admin"))
    else t

-- chat_settings_reset_to_defaults.
unfoldable pub reset_to_defaults : Config → ChatSettings → ChatSettings
unfolding copy_defaults repair_ssid repair_password repair_channel repair_admin_password
reset_to_defaults c s =
    let d = copy_defaults c s in
    record {
      ssid = repair_ssid d.ssid;
      password = repair_password d.password;
      channel = repair_channel d.channel;
      admin_password = repair_admin_password d.admin_password;
    }

-- The test at the end of chat_settings_load for settings to throw away.
unfoldable pub is_invalid : ChatSettings → Bool
unfolding valid_wifi_password
is_invalid s =
    is_empty s.ssid
    || not (valid_wifi_password s.password)
    || ltb s.channel 1
    || ltb 13 s.channel
    || ltb (length s.admin_password) min_admin_pass_len

-- What it does with them.
unfoldable pub keep_or_reset : Config → ChatSettings → ChatSettings
unfolding is_invalid reset_to_defaults
keep_or_reset c s = if is_invalid s then reset_to_defaults c s else s

module _ (p : Platform) where
  open p use {
    Env, Handle, nvs_open, nvs_get_str, nvs_get_u8, nvs_set_str, nvs_set_u8, nvs_commit, nvs_close,
  }

  -- The reads of chat_settings_load, over the defaults.
  unfoldable pub read_settings : Handle → ChatSettings → Env → ChatSettings × Env
  read_settings nvs s e =
      let (r1, ssid, e1) = nvs_get_str nvs "ssid" (max_wifi_ssid_len + 1) s.ssid e in
      let (r2, password, e2) = nvs_get_str nvs "pass" (max_wifi_pass_len + 1) s.password e1 in
      let (r3, admin, e3) = nvs_get_str nvs "admin" (max_admin_pass_len + 1) s.admin_password e2 in
      let (r4, channel, e4) = nvs_get_u8 nvs "chan" e3 in
      (
        record {
          ssid = ssid;
          password = password;
          channel = if is_ok r4 then channel else s.channel;
          admin_password = admin;
        },
        nvs_close nvs e4,
      )

  -- What chat_settings_load leaves in the settings.
  unfoldable pub loaded : Config → ChatSettings → Env → ChatSettings × Env
  unfolding reset_to_defaults read_settings keep_or_reset
  loaded c s e =
      let d = reset_to_defaults c s in
      let (ret, nvs, e1) = nvs_open "chatcfg" false e in
      let (t, e2) = read_settings nvs d e1 in
      if not (is_ok ret) then (d, e1) else (keep_or_reset c t, e2)

  -- chat_settings_load.
  unfoldable pub load : Config → Run Env (Unit {0})
  unfolding loaded
  load c w =
      let (s, e) = loaded c w.ctx.settings w.env in
      (tt, record w { ctx = record (w.ctx) { settings = s }; env = e })

  -- `if (ret == ESP_OK) ret = step;`
  abbrev pub when_ok : EspErr → Run Env EspErr → Run Env EspErr
  when_ok ret step = elim (is_ok ret) [ true ↦ step | false ↦ done ret ]

  -- chat_settings_save, once NVS is open.
  unfoldable pub write_settings : Handle → ChatSettings → Run Env EspErr
  write_settings nvs s = do
    r1 ← call (nvs_set_str nvs "ssid" s.ssid)
    r2 ← when_ok r1 (call (nvs_set_str nvs "pass" s.password))
    r3 ← when_ok r2 (call (nvs_set_str nvs "admin" s.admin_password))
    r4 ← when_ok r3 (call (nvs_set_u8 nvs "chan" s.channel))
    ret ← when_ok r4 (call (nvs_commit nvs))
    tell (nvs_close nvs)
    done ret

  -- chat_settings_save.
  unfoldable pub save : ChatSettings → Run Env EspErr
  unfolding write_settings
  save s w =
      let (ret, nvs, env) = nvs_open "chatcfg" true w.env in
      if not (is_ok ret)
      then (ret, record w { env = env })
      else write_settings nvs s (record w { env = env })
