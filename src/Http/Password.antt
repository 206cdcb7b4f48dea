-- ===== src/Http/Password.antt =====
-- Who passes the test of the administrator's password in main/src/server/http_server.c.
use esp32_web_chat.Common.{◌≡◌, refl, true, false, Option, none, some, arith, ◌&&◌}
use esp32_web_chat.Config.{ChatSettings, max_admin_pass_len}
use esp32_web_chat.Platform.{Platform}
use esp32_web_chat.Json.{json_string_in_range, text_is}
use esp32_web_chat.Json.Texts.{text_is-some}
use esp32_web_chat.Http.{text_at, is_authorized}

-- The request has a text under "adminPassword", in any case, which is the administrator's password.
abbrev pub KnowsPassword : (p : Platform) → p.Node → ChatSettings → Type 0
KnowsPassword p root s =
    (item : p.Node) × (p.get_item_any_case root "adminPassword" ≡ some item)
    × (p.is_string item ≡ true)
    × (p.value_string item ≡ some s.admin_password)

pub is_authorized-KnowsPassword :
    (p : Platform) (root : p.Node) (s : ChatSettings)
    → is_authorized p root s ≡ true
    → KnowsPassword p root s
unfolding is_authorized json_string_in_range
is_authorized-KnowsPassword p root s = of_item (p.get_item_any_case root "adminPassword") refl
  where
    of_item :
        (o : Option (p.Node))
        → p.get_item_any_case root "adminPassword" ≡ o
        → (json_string_in_range p o max_admin_pass_len false
            && text_is (text_at p o) s.admin_password)
          ≡ true
        → KnowsPassword p root s
    of_item none e h = absurd (ground (arith, h))
    of_item (some item) e h = (
      item,
      e,
      ground (arith, h),
      text_is-some (p.value_string item) s.admin_password (ground (arith, h)),
    )
