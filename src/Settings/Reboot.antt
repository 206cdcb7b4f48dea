-- ===== src/Settings/Reboot.antt =====
-- The settings that are saved in NVS are those that a reboot loads.
use esp32_web_chat.Common.{
  ℕ, ◌≡◌, ◌<◌, refl, sym, ap, ◌∙◌, Bool, true, false, not, Option, some, Bytes, length, arith,
}
use esp32_web_chat.Config.{Config, ChatSettings}
use esp32_web_chat.Platform.{Platform, Run, World, EspErr, is_ok, ◌>>=◌, ◌>>◌, done, call, tell}
use esp32_web_chat.Platform.Keeps.{branch, if_branch}
use esp32_web_chat.Settings.{
  when_ok, save, keep_or_reset, reset_to_defaults, read_settings, loaded, load,
}
use esp32_web_chat.Settings.Valid.{IsUsable, usable-passes}

-- The entries of the namespace "chatcfg".
pub record Entries : Type 0 where
  pub ssid : Option Bytes
  pub pass : Option Bytes
  pub admin : Option Bytes
  pub chan : Option ℕ

abbrev pub entries_of : ChatSettings → Entries
entries_of s = record {
  ssid = some s.ssid;
  pass = some s.password;
  admin = some s.admin_password;
  chan = some s.channel;
}

-- NVS keeps, for each entry of the settings, the value that was set last, which reads see where the
-- buffer has room for it, and the one that was committed last, which a reboot brings back.
pub record Flash (p : Platform) : Type 1 where
  pub IsSettings : p.Handle → Type 0
  pub staged : p.Env → Entries
  pub stored : p.Env → Entries
  pub reboot : p.Env → p.Env
  pub rebooted : (e : p.Env) → staged (reboot e) ≡ stored e
  pub opened : (write : Bool) (e : p.Env) → staged (p.nvs_open "chatcfg" write e).2 ≡ staged e
  pub opened_handle :
      (write : Bool) (e : p.Env)
      → is_ok (p.nvs_open "chatcfg" write e).0 ≡ true
      → IsSettings (p.nvs_open "chatcfg" write e).1
  pub set_ssid :
      (h : p.Handle) (t : Bytes) (e : p.Env)
      → IsSettings h
      → is_ok (p.nvs_set_str h "ssid" t e).0 ≡ true
      → staged (p.nvs_set_str h "ssid" t e).1 ≡ record (staged e) { ssid = some t }
  pub set_pass :
      (h : p.Handle) (t : Bytes) (e : p.Env)
      → IsSettings h
      → is_ok (p.nvs_set_str h "pass" t e).0 ≡ true
      → staged (p.nvs_set_str h "pass" t e).1 ≡ record (staged e) { pass = some t }
  pub set_admin :
      (h : p.Handle) (t : Bytes) (e : p.Env)
      → IsSettings h
      → is_ok (p.nvs_set_str h "admin" t e).0 ≡ true
      → staged (p.nvs_set_str h "admin" t e).1 ≡ record (staged e) { admin = some t }
  pub set_chan :
      (h : p.Handle) (n : ℕ) (e : p.Env)
      → IsSettings h
      → is_ok (p.nvs_set_u8 h "chan" n e).0 ≡ true
      → staged (p.nvs_set_u8 h "chan" n e).1 ≡ record (staged e) { chan = some n }
  pub committed :
      (h : p.Handle) (e : p.Env)
      → IsSettings h
      → is_ok (p.nvs_commit h e).0 ≡ true
      → stored (p.nvs_commit h e).1 ≡ staged e
  pub closed : (h : p.Handle) (e : p.Env) → stored (p.nvs_close h e) ≡ stored e
  pub got_ssid :
      (h : p.Handle) (size : ℕ) (buffer t : Bytes) (e : p.Env)
      → IsSettings h
      → (staged e).ssid ≡ some t
      → length t < size
      → (p.nvs_get_str h "ssid" size buffer e).1 ≡ t
  pub got_pass :
      (h : p.Handle) (size : ℕ) (buffer t : Bytes) (e : p.Env)
      → IsSettings h
      → (staged e).pass ≡ some t
      → length t < size
      → (p.nvs_get_str h "pass" size buffer e).1 ≡ t
  pub got_admin :
      (h : p.Handle) (size : ℕ) (buffer t : Bytes) (e : p.Env)
      → IsSettings h
      → (staged e).admin ≡ some t
      → length t < size
      → (p.nvs_get_str h "admin" size buffer e).1 ≡ t
  pub read_ssid :
      (h : p.Handle) (size : ℕ) (b : Bytes) (e : p.Env)
      → staged (p.nvs_get_str h "ssid" size b e).2 ≡ staged e
  pub read_pass :
      (h : p.Handle) (size : ℕ) (b : Bytes) (e : p.Env)
      → staged (p.nvs_get_str h "pass" size b e).2 ≡ staged e
  pub read_admin :
      (h : p.Handle) (size : ℕ) (b : Bytes) (e : p.Env)
      → staged (p.nvs_get_str h "admin" size b e).2 ≡ staged e
  pub got_chan :
      (h : p.Handle) (n : ℕ) (e : p.Env)
      → IsSettings h
      → (staged e).chan ≡ some n
      → (is_ok (p.nvs_get_u8 h "chan" e).0 ≡ true) × ((p.nvs_get_u8 h "chan" e).1 ≡ n)

keep-usable : (cfg : Config) (s : ChatSettings) → IsUsable s → keep_or_reset cfg s ≡ s
unfolding keep_or_reset
keep-usable cfg s u = rw (usable-passes s u) refl

module _ (p : Platform) (flash : Flash p) where
  open p use {Env, Handle}

  when_ok-ok :
      (ret : EspErr) (step : Run Env EspErr) (w : World Env)
      → is_ok (when_ok p ret step w).0 ≡ true
      → (is_ok ret ≡ true) × (when_ok p ret step w ≡ step w)
  unfolding done
  when_ok-ok ret step w =
      branch (λ r. is_ok r.0 ≡ true → (is_ok ret ≡ true) × (r ≡ step w)) (is_ok ret) _ _ _
        (λ f e. absurd (ground arith)) (λ t e. (t, refl))

  -- The four entries and the commit, each where the one before answers ESP_OK.
  module _ (h : Handle) (ok : flash.IsSettings h) (s : ChatSettings) (w : World Env) where
    o1 : EspErr × World Env
    o1 = call (p.nvs_set_str h "ssid" s.ssid) w

    o2 : EspErr × World Env
    o2 = when_ok p o1.0 (call (p.nvs_set_str h "pass" s.password)) o1.1

    o3 : EspErr × World Env
    o3 = when_ok p o2.0 (call (p.nvs_set_str h "admin" s.admin_password)) o2.1

    o4 : EspErr × World Env
    o4 = when_ok p o3.0 (call (p.nvs_set_u8 h "chan" s.channel)) o3.1

    o5 : EspErr × World Env
    o5 = when_ok p o4.0 (call (p.nvs_commit h)) o4.1

    abbrev staged_in : EspErr × World Env → Entries
    staged_in r = flash.staged r.1.env

    after_ssid :
        is_ok o1.0 ≡ true → staged_in o1 ≡ record (flash.staged w.env) { ssid = some s.ssid }
    unfolding o1 call
    after_ssid k = flash.set_ssid h s.ssid w.env ok k

    after_pass :
        is_ok o2.0 ≡ true
        → staged_in o2 ≡ record (flash.staged w.env) { ssid = some s.ssid; pass = some s.password }
    unfolding o2 call
    after_pass k =
        let c = when_ok-ok o1.0 (call (p.nvs_set_str h "pass" s.password)) o1.1 k in
        ap staged_in c.1
        ∙ flash.set_pass h s.password o1.1.env ok
            (sym (ap (λ (r : EspErr × World Env). is_ok r.0) c.1) ∙ k)
        ∙ ap (λ (d : Entries). record d { pass = some s.password }) (after_ssid c.0)

    after_admin :
        is_ok o3.0 ≡ true
        → staged_in o3 ≡ record (flash.staged w.env) {
          ssid = some s.ssid;
          pass = some s.password;
          admin = some s.admin_password;
        }
    unfolding o3 call
    after_admin k =
        let c = when_ok-ok o2.0 (call (p.nvs_set_str h "admin" s.admin_password)) o2.1 k in
        ap staged_in c.1
        ∙ flash.set_admin h s.admin_password o2.1.env ok
            (sym (ap (λ (r : EspErr × World Env). is_ok r.0) c.1) ∙ k)
        ∙ ap (λ (d : Entries). record d { admin = some s.admin_password }) (after_pass c.0)

    after_chan : is_ok o4.0 ≡ true → staged_in o4 ≡ entries_of s
    unfolding o4 call
    after_chan k =
        let c = when_ok-ok o3.0 (call (p.nvs_set_u8 h "chan" s.channel)) o3.1 k in
        ap staged_in c.1
        ∙ flash.set_chan h s.channel o3.1.env ok
            (sym (ap (λ (r : EspErr × World Env). is_ok r.0) c.1) ∙ k)
        ∙ ap (λ (d : Entries). record d { chan = some s.channel }) (after_admin c.0)

    after_commit : is_ok o5.0 ≡ true → flash.stored o5.1.env ≡ entries_of s
    unfolding o5 call
    after_commit k =
        let c = when_ok-ok o4.0 (call (p.nvs_commit h)) o4.1 k in
        ap (λ (r : EspErr × World Env). flash.stored r.1.env) c.1
        ∙ flash.committed h o4.1.env ok (sym (ap (λ (r : EspErr × World Env). is_ok r.0) c.1) ∙ k)
        ∙ after_chan c.0

  -- A save that answers ESP_OK has committed every entry.
  save-stored :
      (s : ChatSettings) (w : World Env)
      → is_ok (save p s w).0 ≡ true
      → flash.stored (save p s w).1.env ≡ entries_of s
  unfolding save ◌>>=◌ ◌>>◌ done call tell o1 o2 o3 o4 o5
  save-stored s w =
      if_branch (λ r. is_ok r.0 ≡ true → flash.stored r.1.env ≡ entries_of s) (not (is_ok nvs.0)) _
        _ (λ f e. absurd (ground (arith, e)))
        (λ t e.
          flash.closed nvs.1 _
          ∙ after_commit nvs.1 (flash.opened_handle true w.env (ground arith)) s _ e)
    where
      nvs : EspErr × Handle × Env
      nvs = p.nvs_open "chatcfg" true w.env

  -- Reading back what is staged.
  read_settings-staged :
      (h : Handle) (d s : ChatSettings) (e : Env)
      → flash.IsSettings h
      → IsUsable s
      → flash.staged e ≡ entries_of s
      → (read_settings p h d e).0 ≡ s
  unfolding read_settings
  read_settings-staged h d s e ok u g =
      let e1 = (p.nvs_get_str h "ssid" 33 d.ssid e).2 in
      let e2 = (p.nvs_get_str h "pass" 64 d.password e1).2 in
      let e3 = (p.nvs_get_str h "admin" 33 d.admin_password e2).2 in
      let g1 : flash.staged e1 ≡ entries_of s = flash.read_ssid h 33 d.ssid e ∙ g in
      let g2 : flash.staged e2 ≡ entries_of s = flash.read_pass h 64 d.password e1 ∙ g1 in
      let g3 : flash.staged e3 ≡ entries_of s = flash.read_admin h 33 d.admin_password e2 ∙ g2 in
      let a =
        flash.got_ssid h 33 d.ssid s.ssid e ok (ap (λ (x : Entries). x.ssid) g)
          (omega (arith, u.ssid_high)) in
      let b =
        flash.got_pass h 64 d.password s.password e1 ok (ap (λ (x : Entries). x.pass) g1)
          (ground (arith, u.password_size)) in
      let c =
        flash.got_admin h 33 d.admin_password s.admin_password e2 ok
          (ap (λ (x : Entries). x.admin) g2) (omega (arith, u.admin_high)) in
      let n = flash.got_chan h s.channel e3 ok (ap (λ (x : Entries). x.chan) g3) in
      ground (arith, a, b, c, n.0, n.1)

  -- On an NVS that reads an entry as it was set where the buffer has room for it, and brings back
  -- after a reboot what was committed, where saving usable settings answers ESP_OK and NVS can be
  -- opened after the reboot, loading leaves the settings that were saved.
  pub save-load :
      (cfg : Config) (s : ChatSettings) (w v : World Env)
      → IsUsable s
      → is_ok (save p s w).0 ≡ true
      → v.env ≡ flash.reboot (save p s w).1.env
      → is_ok (p.nvs_open "chatcfg" false v.env).0 ≡ true
      → (load p cfg v).1.ctx.settings ≡ s
  unfolding load loaded
  save-load cfg s w v u ok e readable =
      let d = reset_to_defaults cfg v.ctx.settings in
      let nvs = p.nvs_open "chatcfg" false v.env in
      let back =
        read_settings-staged nvs.1 d s nvs.2 (flash.opened_handle false v.env readable) u
          (flash.opened false v.env ∙ ap flash.staged e ∙ flash.rebooted _ ∙ save-stored s w ok) in
      rw readable (ap (keep_or_reset cfg) back ∙ keep-usable cfg s u)
