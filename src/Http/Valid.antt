-- ===== src/Http/Valid.antt =====
-- A change of the settings over HTTP leaves usable settings, and needs the administrator's password.
use esp32_web_chat.Common.{
  ℕ, suc, ◌≡◌, ◌≤◌, ◌⊎◌, inl, inr, refl, subst, ap, Bool, true, false, not, ◌&&◌, ◌||◌, Option,
  none, some, [], ◌∷◌, Bytes, arith, if◌then◌else◌, is_empty, length, ltb, length-take,
}
use esp32_web_chat.Common.Int.{ℤ, pos, negsuc, ltb_ℤ}
use esp32_web_chat.Config.{ChatSettings, max_wifi_ssid_len, max_admin_pass_len}
use esp32_web_chat.Slots.{copy_bounded}
use esp32_web_chat.Platform.{Platform}
use esp32_web_chat.Settings.{valid_wifi_password}
use esp32_web_chat.Settings.Valid.{IsUsable, password_size_of}
use esp32_web_chat.Json.{fits, json_string_in_range}
use esp32_web_chat.Http.Password.{KnowsPassword, is_authorized-KnowsPassword}
use esp32_web_chat.Http.{
  channel_of, or_empty, Refusal, Change, refuse, accept, and_then, is_authorized, change_ssid,
  change_channel, set_password, change_password, change_admin, updated_settings,
}

-- What is accepted is usable.
abbrev Good : Change → Type 0
Good (refuse r) = Unit
Good (accept s) = IsUsable s

either :
    (b : Bool) (x y : Change)
    → (b ≡ true → Good x)
    → (b ≡ false → Good y)
    → Good (if b then x else y)
either true x y t f = t refl
either false x y t f = f refl

and_then-Good :
    (c : Change) (f : ChatSettings → Change)
    → Good c
    → ((s : ChatSettings) → IsUsable s → Good (f s))
    → Good (and_then c f)
and_then-Good (refuse r) f g h = tt
and_then-Good (accept s) f g h = h s g

-- A copy of a text of 1 to `room` bytes.
length-copied :
    (dst t : Bytes) (room low : ℕ)
    → low ≤ length t
    → length t ≤ room
    → (low ≤ length (copy_bounded dst (suc room) (some t)))
      × (length (copy_bounded dst (suc room) (some t)) ≤ room)
unfolding copy_bounded
length-copied dst t room low l h =
    (omega (arith, length-take {0} room t), omega (arith, length-take {0} room t))

set_password-Good :
    (o : Option Bytes) (b : Bool) (s : ChatSettings) → IsUsable s → Good (set_password o b s)
unfolding set_password
set_password-Good none b s u = tt
set_password-Good (some []) b s u = either (not b) _ _ (λ e. tt) (λ e. u)
set_password-Good (some (x ∷ xs)) b s u =
    either (not b) _ _ (λ e. tt)
      (λ e.
        either (not (valid_wifi_password (x ∷ xs))) _ _ (λ e. tt)
          (λ v. record {
            ssid_low = u.ssid_low;
            ssid_high = u.ssid_high;
            password_size = inr (copied (password_size_of (x ∷ xs) (ground arith)));
            channel_low = u.channel_low;
            channel_high = u.channel_high;
            admin_low = u.admin_low;
            admin_high = u.admin_high;
          }))
  where
    new : Bytes
    new = copy_bounded s.password 64 (some (x ∷ xs))

    copied :
        (length (x ∷ xs) ≡ 0) ⊎ ((8 ≤ length (x ∷ xs)) × (length (x ∷ xs) ≤ 63))
        → (8 ≤ length new) × (length new ≤ 63)
    copied (inl z) = absurd (omega (arith, z))
    copied (inr (l, h)) = length-copied s.password (x ∷ xs) 63 8 l h

channel_in_range :
    (a : Bool) (n : ℤ)
    → (a || ltb_ℤ n (pos 1) || ltb_ℤ (pos 13) n) ≡ false
    → (1 ≤ channel_of n) × (channel_of n ≤ 13)
channel_in_range a (pos n) h = ground arith
channel_in_range a (negsuc n) h = absurd (ground arith)

change_channel-Good :
    (p : Platform) (o : Option (p.Node)) (s : ChatSettings)
    → IsUsable s
    → Good (change_channel p o s)
unfolding change_channel
change_channel-Good p none s u = u
change_channel-Good p (some n) s u =
    either (not (p.is_number n) || ltb_ℤ (p.value_int n) (pos 1) || ltb_ℤ (pos 13) (p.value_int n))
      _ _ (λ e. tt)
      (λ e.
        let c = channel_in_range (not (p.is_number n)) (p.value_int n) e in
        record {
          ssid_low = u.ssid_low;
          ssid_high = u.ssid_high;
          password_size = u.password_size;
          channel_low = c.0;
          channel_high = c.1;
          admin_low = u.admin_low;
          admin_high = u.admin_high;
        })

change_ssid-Good :
    (p : Platform) (o : Option (p.Node)) (s : ChatSettings) → IsUsable s → Good (change_ssid p o s)
unfolding change_ssid json_string_in_range
change_ssid-Good p none s u = u
change_ssid-Good p (some n) s u = from_text (p.value_string n) (p.is_string n)
  where
    from_text :
        (o : Option Bytes) (b : Bool)
        → Good (
            if not (b && fits o max_wifi_ssid_len false)
            then refuse (record { code = "bad_ssid"; message = "SSID must be 1 to 32 bytes" })
            else accept (record s { ssid = copy_bounded s.ssid 33 o }))
    from_text none b = either (not (b && false)) _ _ (λ e. tt) (λ e. absurd (ground arith))
    from_text (some t) b =
        either (not (b && fits (some t) max_wifi_ssid_len false)) _ _ (λ e. tt)
          (λ e.
            let c = length-copied s.ssid t 32 1 (ground arith) (ground arith) in
            record {
              ssid_low = c.0;
              ssid_high = c.1;
              password_size = u.password_size;
              channel_low = u.channel_low;
              channel_high = u.channel_high;
              admin_low = u.admin_low;
              admin_high = u.admin_high;
            })

change_admin-Good :
    (p : Platform) (o : Option (p.Node)) (s : ChatSettings) → IsUsable s → Good (change_admin p o s)
unfolding change_admin json_string_in_range
change_admin-Good p none s u = u
change_admin-Good p (some n) s u = from_text (p.value_string n) (p.is_string n)
  where
    from_text :
        (o : Option Bytes) (b : Bool)
        → Good (
            if b && not (is_empty (or_empty o))
            then if not (b && fits o max_admin_pass_len false) || ltb (length (or_empty o)) 4
              then refuse (record {
                code = "bad_admin_password";
                message = "New admin password is too short";
              })
              else accept (record s {
                admin_password = copy_bounded s.admin_password 33 (some (or_empty o));
              })
            else accept s)
    from_text none b = either (b && false) _ _ (λ e. absurd (ground arith)) (λ e. u)
    from_text (some t) b =
        either (b && not (is_empty t)) _ _
          (λ e.
            either (not (b && fits (some t) max_admin_pass_len false) || ltb (length t) 4) _ _
              (λ e. tt)
              (λ e.
                let c = length-copied s.admin_password t 32 4 (ground arith) (ground arith) in
                record {
                  ssid_low = u.ssid_low;
                  ssid_high = u.ssid_high;
                  password_size = u.password_size;
                  channel_low = u.channel_low;
                  channel_high = u.channel_high;
                  admin_low = c.0;
                  admin_high = c.1;
                }))
          (λ e. u)

change_password-Good :
    (p : Platform) (b : Bool) (o : Option (p.Node)) (s : ChatSettings)
    → IsUsable s
    → Good (change_password p b o s)
unfolding change_password
change_password-Good p true o s u = record {
  ssid_low = u.ssid_low;
  ssid_high = u.ssid_high;
  password_size = inl refl;
  channel_low = u.channel_low;
  channel_high = u.channel_high;
  admin_low = u.admin_low;
  admin_high = u.admin_high;
}
change_password-Good p false none s u = u
change_password-Good p false (some n) s u = set_password-Good (p.value_string n) (p.is_string n) s u

checked-Good :
    (p : Platform) (root : p.Node) (s : ChatSettings)
    → IsUsable s
    → Good (updated_settings p root s)
unfolding updated_settings
checked-Good p root s u =
    either (not (is_authorized p root s)) _ _ (λ e. tt)
      (λ e.
        search
          (
            and_then-Good,
            change_ssid-Good p,
            change_channel-Good p,
            change_password-Good p,
            change_admin-Good p,
          )
          depth 10)

abbrev is_accepted : Change → Bool
is_accepted (refuse r) = false
is_accepted (accept s) = true

guarded :
    (b : Bool) (r : Refusal) (c : Change)
    → is_accepted (if not b then refuse r else c) ≡ true
    → b ≡ true
guarded true r c h = refl
guarded false r c h = h

-- A change of usable settings over HTTP that is accepted came with a string under "adminPassword",
-- in any case of letters, that is the administrator's password, and leaves usable settings.
pub updated_settings-accept :
    (p : Platform) (root : p.Node) (s s' : ChatSettings)
    → IsUsable s
    → updated_settings p root s ≡ accept s'
    → KnowsPassword p root s × IsUsable s'
unfolding updated_settings
updated_settings-accept p root s s' u e = (
  is_authorized-KnowsPassword p root s (guarded (is_authorized p root s) _ _ (ap is_accepted e)),
  subst Good e (checked-Good p root s u),
)
