-- ===== src/Tests/Protocol.antt =====
-- Messages of clients that may not send them, a relayed response and a change of the settings.
use esp32_web_chat.Common.{
  ◌⊎◌, ℕ, ◌≡◌, refl, inl, true, false, some, [], ◌∷◌, arith, codes, get_elem?, bytes_eq,
}
use esp32_web_chat.Common.Int.{pos}
use esp32_web_chat.Config.{ClientSlot, ChatSettings}
use esp32_web_chat.Slots
use esp32_web_chat.Platform.{is_ok}
use esp32_web_chat.Settings.Valid.{IsUsable}
use esp32_web_chat.Json.{json_string_in_range}
use esp32_web_chat.Protocol.{relay_fds}
use esp32_web_chat.Protocol.Checks.{history_response_targets_match_message}
use esp32_web_chat.Protocol.Dispatch.{handle_as_joined}
use esp32_web_chat.Protocol.Identity.{SpeaksAs, handle_as_joined-refuses}
use esp32_web_chat.Protocol.Parties.{Wrote, AddressedTo}
use esp32_web_chat.Protocol.Privacy.{relay_fds-visible}
use esp32_web_chat.Http.{updated_settings}
use esp32_web_chat.Http.Password.{KnowsPassword}
use esp32_web_chat.Http.Valid.{updated_settings-accept}
use esp32_web_chat.Tests.Json.{Tree, text, number, array, object, leaf, more}
use esp32_web_chat.Tests.Table.{joined, joined-IsWellFormed}
use esp32_web_chat.Tests.Store.{ready, build}
use esp32_web_chat.Tests.Takeover.{before}

-- {"from":"a"} on the connection 6, which has not joined.
abbrev claim : Tree
claim = object [] (more (text (codes "from") (97 ∷ [])) leaf)

handle_as_joined-refuses_example :
    ((is_ok (handle_as_joined ready build (pos 6) claim (some (codes "text")) before).0 ≡ false)
      × ((handle_as_joined ready build (pos 6) claim (some (codes "text")) before).1.ctx.messages
          ≡ before.ctx.messages))
    ⊎ SpeaksAs ready (pos 6) claim before.ctx.client_slots
unfolding Slots.check_identity json_string_in_range Slots.update_identity Slots.ensure_slot
    Slots.is_stale
handle_as_joined-refuses_example =
    handle_as_joined-refuses ready build (pos 6) claim (some (codes "text")) before
      joined-IsWellFormed

-- A response to "a" with a message to "a".
abbrev to_a : Tree
to_a = object (codes "to") (more (array (codes "users") (more (text [] (97 ∷ [])) leaf)) leaf)

abbrev response : Tree
response = object [] (more to_a leaf)

relay_fds-visible_example :
    (i : ℕ) × (s : ClientSlot) × (get_elem? joined i ≡ some s)
    × (s.fd ≡ pos 5)
    × (s.joined ≡ true)
    × (Wrote ready response s.user_id ⊎ AddressedTo ready response s.user_id)
unfolding history_response_targets_match_message relay_fds bytes_eq Slots.update_identity
    Slots.ensure_slot Slots.is_stale
relay_fds-visible_example =
    relay_fds-visible ready response response to_a (pos 5) joined refl refl (inl refl)

abbrev current : ChatSettings
current = record { ssid = 97 ∷ []; password = []; channel = 1; admin_password = codes "admin" }

current-IsUsable : IsUsable current
current-IsUsable = record {
  ssid_low = omega arith;
  ssid_high = omega arith;
  password_size = inl refl;
  channel_low = omega arith;
  channel_high = omega arith;
  admin_low = omega arith;
  admin_high = omega arith;
}

-- {"adminPassword":"admin","channel":6}
abbrev request : Tree
request =
    object []
      (more (text (codes "adminPassword") (codes "admin")) (more (number (codes "channel") 6) leaf))

updated_settings-accept_example :
    KnowsPassword ready request current × IsUsable (record current { channel = 6 })
unfolding updated_settings bytes_eq
updated_settings-accept_example =
    updated_settings-accept ready request current (record current { channel = 6 }) current-IsUsable
      refl
