-- ===== src/Tests/Flash.antt =====
-- The settings over a flash memory that keeps them.
use Prim.Native.String.{String}
use esp32_web_chat.Common.{
  ℕ, ◌≡◌, ◌<◌, refl, inr, ap, Option, none, some, [], ◌∷◌, Bytes, codes, length, ltb, ◌==◌, arith,
  if◌then◌else◌,
}
use esp32_web_chat.Config.{ChatSettings}
use esp32_web_chat.Platform.{
  Platform, World, is_ok, ◌>>=◌, ◌>>◌, done, call, tell, EspErr, esp_ok, err_not_found,
  err_invalid_size,
}
use esp32_web_chat.Settings.{save, write_settings, load}
use esp32_web_chat.Settings.Valid.{IsUsable}
use esp32_web_chat.Settings.Reboot.{Entries, Flash, entries_of, save-load}
use esp32_web_chat.Tests.Store.{over, build, world}

-- The entries are told apart by their first letter.
abbrev first_letter : String → ℕ
first_letter key = elim (codes key) [ [] ↦ 0 | b ∷ bs ↦ b ]

abbrev entry : String → Entries → Option Bytes
entry key d =
    if first_letter key == 115 then d.ssid else if first_letter key == 112 then d.pass else d.admin

abbrev put : String → Bytes → Entries → Entries
put key t d =
    if first_letter key == 115
    then record d { ssid = some t }
    else if first_letter key == 112
    then record d { pass = some t }
    else record d { admin = some t }

abbrev read_text : Option Bytes → ℕ → Bytes → EspErr × Bytes
read_text none size buffer = (err_not_found, buffer)
read_text (some t) size buffer =
    if ltb (length t) size then (esp_ok, t) else (err_invalid_size, buffer)

abbrev read_byte : Option ℕ → EspErr × ℕ
read_byte none = (err_not_found, 0)
read_byte (some n) = (esp_ok, n)

-- What was set last, and what was committed last.
abbrev settings_flash : Platform
settings_flash = record (over (Entries × Entries) (λ e. 7) (λ key n e. e) (λ e. (e.0, e.0))) {
  nvs_get_str = λ h key size t e. let r = read_text (entry key e.0) size t in (r.0, r.1, e);
  nvs_set_str = λ h key t e. (esp_ok, (put key t e.0, e.1));
  nvs_get_u8 = λ h key e. let r = read_byte e.0.chan in (r.0, r.1, e);
  nvs_set_u8 = λ h key n e. (esp_ok, (record (e.0) { chan = some n }, e.1));
}

read_text-some :
    (o : Option Bytes) (size : ℕ) (buffer t : Bytes)
    → o ≡ some t
    → length t < size
    → (read_text o size buffer).1 ≡ t
read_text-some o size buffer t e h = ground arith

read_byte-some :
    (o : Option ℕ) (n : ℕ) → o ≡ some n → ((read_byte o).0 ≡ esp_ok) × ((read_byte o).1 ≡ n)
read_byte-some o n e = ground arith

abbrev settings_flash-Flash : Flash settings_flash
settings_flash-Flash = record {
  IsSettings = λ h. Unit {0};
  staged = λ e. e.0;
  stored = λ e. e.1;
  reboot = λ e. (e.1, e.1);
  rebooted = λ e. refl;
  opened = λ write e. refl;
  opened_handle = λ write e ok. tt;
  set_ssid = λ h t e m ok. refl;
  set_pass = λ h t e m ok. refl;
  set_admin = λ h t e m ok. refl;
  set_chan = λ h n e m ok. refl;
  committed = λ h e m ok. refl;
  closed = λ h e. refl;
  got_ssid = λ h size b t e m s l. read_text-some e.0.ssid size b t s l;
  got_pass = λ h size b t e m s l. read_text-some e.0.pass size b t s l;
  got_admin = λ h size b t e m s l. read_text-some e.0.admin size b t s l;
  read_ssid = λ h size b e. refl;
  read_pass = λ h size b e. refl;
  read_admin = λ h size b e. refl;
  got_chan =
      λ h n e m s. (ap is_ok (read_byte-some e.0.chan n s).0, (read_byte-some e.0.chan n s).1);
}

abbrev pub chosen : ChatSettings
chosen = record {
  ssid = 67 ∷ 104 ∷ [];
  password = 49 ∷ 50 ∷ 51 ∷ 52 ∷ 53 ∷ 54 ∷ 55 ∷ 56 ∷ [];
  channel = 6;
  admin_password = 97 ∷ 98 ∷ 99 ∷ 100 ∷ [];
}

pub chosen-IsUsable : IsUsable chosen
chosen-IsUsable = record {
  ssid_low = omega arith;
  ssid_high = omega arith;
  password_size = inr (omega arith, omega arith);
  channel_low = omega arith;
  channel_high = omega arith;
  admin_low = omega arith;
  admin_high = omega arith;
}

abbrev no_entries : Entries
no_entries = record { ssid = none; pass = none; admin = none; chan = none }

abbrev before_save : World (Entries × Entries)
before_save = record { ctx = world.ctx; env = (no_entries, no_entries); frames = [] }

abbrev rebooted : World (Entries × Entries)
rebooted = record { ctx = world.ctx; env = (entries_of chosen, entries_of chosen); frames = [] }

save-load_example : (load settings_flash build rebooted).1.ctx.settings ≡ chosen
unfolding save write_settings ◌>>=◌ ◌>>◌ done call tell
save-load_example =
    save-load settings_flash settings_flash-Flash build chosen before_save rebooted chosen-IsUsable
      refl refl refl
