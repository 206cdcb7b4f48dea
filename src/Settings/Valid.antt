-- ===== src/Settings/Valid.antt =====
-- Whatever the build and the flash hold, the settings that the program runs with are usable.
use Prim.Native.String
use esp32_web_chat.Common.{
  ℕ, suc, [], ◌∷◌, ◌≡◌, ◌≤◌, ◌<◌, ◌⊎◌, inl, inr, true, false, not, ◌||◌, is_empty, ltb, some, Bytes,
  length, arith, Bool-cases, length-take,
}
use esp32_web_chat.Config.{Config, ChatSettings}
use esp32_web_chat.Platform.{Platform, World, is_ok}
use esp32_web_chat.Slots.{copy_bounded}
use esp32_web_chat.Settings.{
  valid_wifi_password, copy_defaults, reset_to_defaults, repair_ssid, repair_password,
  repair_channel, repair_admin_password, is_invalid, keep_or_reset, loaded, load, read_settings,
}

-- What the access point and the login page need of the settings.
pub record IsUsable (s : ChatSettings) : Type 0 where
  pub ssid_low : 1 ≤ length s.ssid
  pub ssid_high : length s.ssid ≤ 32
  pub password_size : (length s.password ≡ 0) ⊎ ((8 ≤ length s.password) × (length s.password ≤ 63))
  pub channel_low : 1 ≤ s.channel
  pub channel_high : s.channel ≤ 13
  pub admin_low : 4 ≤ length s.admin_password
  pub admin_high : length s.admin_password ≤ 32

pub length-copy_bounded :
    (dst src : Bytes) (room : ℕ) → length (copy_bounded dst (suc room) (some src)) ≤ room
unfolding copy_bounded
length-copy_bounded dst src room = omega (arith, length-take {0} room src)

repair_ssid-size :
    (t : Bytes) → length t ≤ 32 → (1 ≤ length (repair_ssid t)) × (length (repair_ssid t) ≤ 32)
unfolding repair_ssid
repair_ssid-size [] h = (omega arith, omega arith)
repair_ssid-size (b ∷ t) h = (omega arith, h)

pub password_size_of :
    (t : Bytes) → valid_wifi_password t ≡ true → (length t ≡ 0) ⊎ ((8 ≤ length t) × (length t ≤ 63))
unfolding valid_wifi_password
password_size_of t h = ground arith

repair_password-size :
    (t : Bytes)
    → (length (repair_password t) ≡ 0)
      ⊎ ((8 ≤ length (repair_password t)) × (length (repair_password t) ≤ 63))
unfolding repair_password
repair_password-size t = elim (Bool-cases (valid_wifi_password t)) [
  | inl v ↦ rw (repair_password, v) (password_size_of t v)
  | inr v ↦ rw (repair_password, v) (inr (omega arith, omega arith))
]

repair_admin_password-size :
    (t : Bytes)
    → length t ≤ 32
    → (4 ≤ length (repair_admin_password t)) × (length (repair_admin_password t) ≤ 32)
unfolding repair_admin_password
repair_admin_password-size t h = ground arith

repair_channel-range : (n : ℕ) → (1 ≤ repair_channel n) × (repair_channel n ≤ 13)
unfolding repair_channel
repair_channel-range n = ground arith

-- The default settings are usable whatever values the build has: an SSID of 1 to 32 bytes, no
-- Wi-Fi password or one of 8 to 63 bytes, a channel from 1 to 13 and an administrator password of
-- 4 to 32 bytes.
pub reset_to_defaults-IsUsable : (c : Config) (s : ChatSettings) → IsUsable (reset_to_defaults c s)
unfolding reset_to_defaults copy_defaults
reset_to_defaults-IsUsable c s =
    let a = repair_ssid-size (copy_defaults c s).ssid (length-copy_bounded s.ssid c.wifi_ssid 32) in
    let b =
      repair_admin_password-size (copy_defaults c s).admin_password
        (length-copy_bounded s.admin_password c.admin_password 32) in
    let n = repair_channel-range (copy_defaults c s).channel in
    record {
      ssid_low = a.0;
      ssid_high = a.1;
      password_size = repair_password-size (copy_defaults c s).password;
      channel_low = n.0;
      channel_high = n.1;
      admin_low = b.0;
      admin_high = b.1;
    }

-- What the test lets through is usable, where the texts fit their buffers.
passed-IsUsable :
    (s : ChatSettings)
    → is_invalid s ≡ false
    → length s.ssid ≤ 32
    → length s.admin_password ≤ 32
    → IsUsable s
unfolding is_invalid
passed-IsUsable s h a b = record {
  ssid_low = ground arith;
  ssid_high = a;
  password_size = password_size_of s.password (ground arith);
  channel_low = ground arith;
  channel_high = ground arith;
  admin_low = ground arith;
  admin_high = b;
}

pub usable-passes : (s : ChatSettings) → IsUsable s → is_invalid s ≡ false
unfolding is_invalid valid_wifi_password
usable-passes s u = passes s.ssid u.ssid_low (ground (arith, u.password_size))
  where
    passes :
        (t : Bytes)
        → 1 ≤ length t
        → (not (valid_wifi_password s.password)
            || ltb s.channel 1
            || ltb 13 s.channel
            || ltb (length s.admin_password) 4)
          ≡ false
        → (is_empty t
            || not (valid_wifi_password s.password)
            || ltb s.channel 1
            || ltb 13 s.channel
            || ltb (length s.admin_password) 4)
          ≡ false
    passes [] h k = absurd (omega arith)
    passes (b ∷ t) h k = k

-- nvs_get_str writes at most as many bytes as the buffer has, with the terminator among them.
pub record Fits (p : Platform) : Type 0 where
  pub room :
      (h : p.Handle) (key : Prim.Native.String.String) (size : ℕ) (text : Bytes) (e : p.Env)
      → length text < size
      → length (p.nvs_get_str h key size text e).1 < size

keep_or_reset-IsUsable :
    (c : Config) (s : ChatSettings)
    → length s.ssid ≤ 32
    → length s.admin_password ≤ 32
    → IsUsable (keep_or_reset c s)
unfolding keep_or_reset
keep_or_reset-IsUsable c s a b = elim (Bool-cases (is_invalid s)) [
  | inl t ↦ rw (keep_or_reset, t) (reset_to_defaults-IsUsable c s)
  | inr t ↦ rw (keep_or_reset, t) (passed-IsUsable s t a b)
]

module _ (p : Platform) (f : Fits p) where
  length-read_settings :
      (nvs : p.Handle) (s : ChatSettings) (e : p.Env)
      → IsUsable s
      → (length (read_settings p nvs s e).0.ssid ≤ 32)
        × (length (read_settings p nvs s e).0.admin_password ≤ 32)
  unfolding read_settings
  length-read_settings nvs s e u = (
    omega (arith, f.room nvs "ssid" 33 s.ssid e (omega (arith, u.ssid_high))),
    omega (arith, f.room nvs "admin" 33 s.admin_password _ (omega (arith, u.admin_high))),
  )

  -- Where reading a string from NVS writes no more than its buffer holds, the settings after
  -- chat_settings_load are usable whatever the build and the flash hold: an SSID of 1 to 32 bytes,
  -- no Wi-Fi password or one of 8 to 63 bytes, a channel from 1 to 13 and an administrator
  -- password of 4 to 32 bytes.
  pub load-IsUsable : (c : Config) (w : World (p.Env)) → IsUsable (load p c w).1.ctx.settings
  unfolding load loaded
  load-IsUsable c w = elim (Bool-cases (is_ok (p.nvs_open "chatcfg" false w.env).0)) [
    | inl t ↦
        let d = reset_to_defaults c w.ctx.settings in
        let nvs = (p.nvs_open "chatcfg" false w.env).1 in
        let e = (p.nvs_open "chatcfg" false w.env).2 in
        let (a, b) = length-read_settings nvs d e (reset_to_defaults-IsUsable c w.ctx.settings) in
        rw (load, loaded, t) (keep_or_reset-IsUsable c (read_settings p nvs d e).0 a b)
    | inr t ↦ rw (load, loaded, t) (reset_to_defaults-IsUsable c w.ctx.settings)
  ]
