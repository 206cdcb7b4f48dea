-- ===== src/Softap/Valid.antt =====
-- What the access point is started with.
use esp32_web_chat.Common.{
  ℕ, zero, suc, ◌-◌, ◌≡◌, ◌≤◌, ◌⊎◌, inl, refl, ap, sym, ◌∙◌, Bool, true, false, Option, none, some,
  List, [], ◌∷◌, ◌++◌, Bytes, take, drop, replicate, length, ◌==◌, arith, length-append,
  if◌then◌else◌,
}
use esp32_web_chat.Config.{Config, ChatSettings}
use esp32_web_chat.Platform.{
  Platform, Run, World, AppContext, is_ok, ◌>>=◌, call, done, get_ctx, on_option,
}
use esp32_web_chat.Board.{
  Board, error_check, unchecked, checked, while_running, ApConfig, wifi_auth_open,
  wifi_auth_wpa2_psk,
}
use esp32_web_chat.Slots.{copy_bounded}
use esp32_web_chat.Settings.Valid.{IsUsable}
use esp32_web_chat.Softap.{ap_config, ap_ip, ap_ip_info, configure_ap, softap_start}

-- A configuration that serves the settings, and that ESP-IDF takes.
pub record Serves (s : ChatSettings) (c : ApConfig) : Type 0 where
  -- The array has its 32 bytes, so the copy stays inside it, and the SSID is what it starts with.
  pub ssid_size : length c.ssid ≡ 32
  pub ssid_text : take c.ssid_len c.ssid ≡ s.ssid
  pub ssid_low : 1 ≤ c.ssid_len
  pub ssid_high : c.ssid_len ≤ 32
  -- The password is not cut, and the network is open exactly if there is none; WPA2 has its 8 to 63.
  pub password_text : c.password ≡ s.password
  pub auth :
      ((s.password ≡ []) × (c.authmode ≡ wifi_auth_open))
      ⊎ ((8 ≤ length s.password) × (length s.password ≤ 63) × (c.authmode ≡ wifi_auth_wpa2_psk))
  pub channel_low : 1 ≤ c.channel
  pub channel_high : c.channel ≤ 13

length-drop : (n : ℕ) (xs : Bytes) → length (drop n xs) ≡ length xs - n
length-drop zero xs = omega arith
length-drop (suc n) [] = omega arith
length-drop (suc n) (x ∷ xs) = omega (arith, length-drop n xs)

take-append : (xs ys : Bytes) → take (length xs) (xs ++ ys) ≡ xs
take-append [] ys = refl
take-append (x ∷ xs) ys = ap (x ∷◌) (take-append xs ys)

take-all : (n : ℕ) (xs : Bytes) → length xs ≤ n → take n xs ≡ xs
take-all zero [] h = refl
take-all zero (x ∷ xs) h = absurd (omega arith)
take-all (suc n) [] h = refl
take-all (suc n) (x ∷ xs) h = ap (x ∷◌) (take-all n xs (omega arith))

auth-of :
    (t : Bytes)
    → (length t ≡ 0) ⊎ ((8 ≤ length t) × (length t ≤ 63))
    → ((t ≡ []) × ((if length t == 0 then wifi_auth_open else wifi_auth_wpa2_psk) ≡ wifi_auth_open))
      ⊎ ((8 ≤ length t)
          × (length t ≤ 63)
          × ((if length t == 0 then wifi_auth_open else wifi_auth_wpa2_psk) ≡ wifi_auth_wpa2_psk))
auth-of [] h = inl (refl, refl)
auth-of (x ∷ xs) h = ground arith

ap_config-Serves : (c : Config) (s : ChatSettings) → IsUsable s → Serves s (ap_config c s)
unfolding ap_config copy_bounded
ap_config-Serves c s u = record {
  ssid_size = omega (
    arith,
    length-append {0} s.ssid (drop (length s.ssid) (replicate 32 0)),
    length-drop (length s.ssid) (replicate 32 0),
    u.ssid_high,
  );
  ssid_text = take-append s.ssid _;
  ssid_low = u.ssid_low;
  ssid_high = u.ssid_high;
  password_text = take-all 63 s.password (ground (arith, u.password_size));
  auth = auth-of s.password u.password_size;
  channel_low = u.channel_low;
  channel_high = u.channel_high;
}

-- The last configuration that esp_wifi_set_config was given; esp_wifi_start leaves it alone.
pub record Radio {Env : Type 0} (b : Board Env) : Type 0 where
  pub configured : Env → Option ApConfig
  pub sets : (c : ApConfig) (e : Env) → configured (b.wifi_set_config c e).1 ≡ some c
  pub starts : (e : Env) → configured (b.wifi_start e).1 ≡ configured e

module _ {Env : Type 0} where
  while_running-true :
      (running : Bool) (k : Run Env Bool) (w : World Env)
      → (while_running running k w).0 ≡ true
      → while_running running k w ≡ k w
  unfolding done
  while_running-true true k w q = refl
  while_running-true false k w q = absurd (ground (arith, q))

  -- Pieces of the boot that all went on have run one after the other.
  checked-ran :
      (before after : List (Run Env Bool)) (w : World Env)
      → (checked (before ++ after) w).0 ≡ true
      → (v : World Env) × (checked (before ++ after) w ≡ checked after v)
  unfolding checked ◌>>=◌
  checked-ran [] after w q = (w, refl)
  checked-ran (m ∷ ms) after w q =
      let e = while_running-true (m w).0 (checked (ms ++ after)) (m w).1 q in
      let r = checked-ran ms after (m w).1 (sym (answers e) ∙ q) in (r.0, e ∙ r.1)
    where
      answers : {r t : Bool × World Env} → r ≡ t → r.0 ≡ t.0
      answers e = ap (λ (r : Bool × World Env). r.0) e

module _ (p : Platform) (b : Board (p.Env)) (radio : Radio b) (cfg : Config) where
  open p use {Env}

  set_and_start-configured :
      (c : ApConfig) (w : World Env)
      → (checked (error_check (b.wifi_set_config c) ∷ error_check b.wifi_start ∷ []) w).0 ≡ true
      → radio.configured
          (checked (error_check (b.wifi_set_config c) ∷ error_check b.wifi_start ∷ []) w).1.env
        ≡ some c
  unfolding checked ◌>>=◌ call done
  set_and_start-configured c w q =
      let set : World Env = record w { env = (b.wifi_set_config c w.env).1 } in
      let e =
        while_running-true (is_ok (b.wifi_set_config c w.env).0)
          (checked (error_check b.wifi_start ∷ [])) set q in
      let f =
        while_running-true (is_ok (b.wifi_start set.env).0) (checked [])
          (record w { env = (b.wifi_start set.env).1 })
          (sym (ap (λ (r : Bool × World Env). r.0) e) ∙ q) in
      ap (λ (r : Bool × World Env). radio.configured r.1.env) (e ∙ f)
      ∙ radio.starts set.env
      ∙ radio.sets c w.env

  configure_ap-configured :
      (n : b.Netif) (w : World Env)
      → (configure_ap p b cfg n w).0 ≡ true
      → radio.configured (configure_ap p b cfg n w).1.env ≡ some (ap_config cfg w.ctx.settings)
  unfolding configure_ap ◌>>=◌ get_ctx
  configure_ap-configured n w q =
      let last : List (Run Env Bool) =
        error_check (b.wifi_set_config (ap_config cfg w.ctx.settings))
        ∷ error_check b.wifi_start
        ∷ [] in
      let before : List (Run Env Bool) =
        error_check (b.dhcps_stop n)
        ∷ error_check (b.set_ip_info n ap_ip_info)
        ∷ error_check (b.dhcps_start n)
        ∷ unchecked (b.set_dns_info n ap_ip)
        ∷ error_check b.wifi_init
        ∷ error_check b.wifi_set_mode_ap
        ∷ [] in
      let (v, e) = checked-ran before last w q in
      ap (λ (r : Bool × World Env). radio.configured r.1.env) e
      ∙ set_and_start-configured (ap_config cfg w.ctx.settings) v
          (sym (ap (λ (r : Bool × World Env). r.0) e) ∙ q)

  -- Setting the interface up leaves the context alone.
  init_ap : Run Env Bool
  init_ap = checked (error_check b.netif_init ∷ error_check b.event_loop ∷ [])

  init_ap-ctx : (w : World Env) → (init_ap w).1.ctx ≡ w.ctx
  unfolding init_ap checked ◌>>=◌ call done
  init_ap-ctx w = ground arith

  created-Serves :
      (s : ChatSettings) (o : Option (b.Netif)) (w : World Env)
      → w.ctx.settings ≡ s
      → IsUsable s
      → (on_option o (done false) (configure_ap p b cfg) w).0 ≡ true
      → (c : ApConfig) × (radio.configured (on_option o (done false) (configure_ap p b cfg) w).1.env
          ≡ some c)
        × Serves s c
  unfolding done
  created-Serves s none w e u q = absurd (ground (arith, q))
  created-Serves s (some n) w e u q = (
    ap_config cfg s,
    configure_ap-configured n w q ∙ ap (λ t. some (ap_config cfg t)) e,
    ap_config-Serves cfg s u,
  )

  -- Where esp_wifi_start leaves the configuration of the radio as esp_wifi_set_config set it, an
  -- access point that starts with usable settings has a configuration whose SSID array is filled
  -- without going past its 32 bytes and starts with the whole SSID, of 1 to 32 bytes, whose
  -- password is the whole password of the settings, which is open exactly where that password is
  -- empty and else WPA2 with 8 to 63 bytes, and whose channel is from 1 to 13.
  pub softap_start-Serves :
      (w : World Env)
      → IsUsable w.ctx.settings
      → (softap_start p b cfg w).0 ≡ true
      → (c : ApConfig) × (radio.configured (softap_start p b cfg w).1.env ≡ some c)
        × Serves w.ctx.settings c
  unfolding softap_start ◌>>=◌ call init_ap
  softap_start-Serves w u q =
      let v = (init_ap w).1 in
      let created = b.create_ap v.env in
      let made : World Env = record v { env = created.1 } in
      let e =
        while_running-true (init_ap w).0
          (call b.create_ap >>= λ o. on_option o (done false) (configure_ap p b cfg)) v q in
      let r =
        created-Serves w.ctx.settings created.0 made
          (ap (λ (c : AppContext). c.settings) (init_ap-ctx w)) u
          (sym (ap (λ (r : Bool × World Env). r.0) e) ∙ q) in
      (r.0, ap (λ (r : Bool × World Env). radio.configured r.1.env) e ∙ r.1, r.2)
