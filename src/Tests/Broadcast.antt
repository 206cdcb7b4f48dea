-- ===== src/Tests/Broadcast.antt =====
-- The broadcast of the online users where a client cannot be sent to.
use mathlib.Core.Option.{some-injective}
use esp32_web_chat.Slots.WellFormed.{IsWellFormed, SlotOk, clash}
use esp32_web_chat.Common.{
  ℕ, zero, suc, some, ◌≢◌, get_elem?, subst, bytes_eq, false, arith, ◌≡◌, refl, true, false, [],
  ◌∷◌, if◌then◌else◌,
}
use esp32_web_chat.Common.Int.{pos, eqb_ℤ}
use esp32_web_chat.Platform.{
  Platform, World, ◌>>=◌, ◌>>◌, done, call, tell, get_ctx, put_ctx, locked, esp_ok, err_timeout,
}
use esp32_web_chat.Config.{ClientSlot}
use esp32_web_chat.Clock.{current_timestamp_s}
use esp32_web_chat.Slots
use esp32_web_chat.Slots.{zero_slot}
use esp32_web_chat.Server.{broadcast, add, send_text, send_each, close_client, broadcast_fds}
use esp32_web_chat.Server.Recipients.{NonNegative}
use esp32_web_chat.Presence.{broadcast_attempts, broadcast_online_users_now}
use esp32_web_chat.Handler.{pre_handshake}
use esp32_web_chat.System.Admission.{Answered, pre_handshake-admits}
use esp32_web_chat.System.Delivery.{Delivered, broadcast-Delivered}
use esp32_web_chat.System.Attempts.{Waits, recipients, broadcast_online_users_now-settles}
use esp32_web_chat.Tests.Store.{ready, world}

-- The connection 5 takes nothing.
abbrev jammed : Platform
jammed = record ready {
  send_frame_async = λ fd t e. (if eqb_ℤ fd (pos 5) then err_timeout else esp_ok, e);
}

jammed-Waits : Waits jammed
jammed-Waits = record { takes = λ e. refl }

abbrev client : ClientSlot
client = record zero_slot { active = true; joined = true }

-- The connections 5 and 6, which have joined as "a" and "b".
abbrev two_clients : World (Unit {0})
two_clients = record world {
  ctx = record (world.ctx) {
    client_slots =
        record client { fd = pos 5; user_id = 97 ∷ [] }
        ∷ record client { fd = pos 6; user_id = 98 ∷ [] }
        ∷ [];
  };
}

two_clients-NonNegative : NonNegative (recipients two_clients.ctx)
unfolding broadcast_fds
two_clients-NonNegative = (refl, (refl, tt))

broadcast_online_users_now-settles_example :
    broadcast_attempts jammed 6 false two_clients ≡ broadcast_online_users_now jammed two_clients
broadcast_online_users_now-settles_example =
    broadcast_online_users_now-settles jammed jammed-Waits two_clients 3 two_clients-NonNegative

-- The slots of 5 and 6.
abbrev first : ClientSlot
first = record client { fd = pos 5; user_id = 97 ∷ [] }

abbrev second : ClientSlot
second = record client { fd = pos 6; user_id = 98 ∷ [] }

slot-SlotOk :
    (i : ℕ) (s : ClientSlot) → get_elem? two_clients.ctx.client_slots i ≡ some s → SlotOk s
slot-SlotOk zero s g =
    subst SlotOk (some-injective _ _ g)
      (record { joined_open = λ h. refl; joined_named = refl; closing_active = λ h. refl })
slot-SlotOk (suc zero) s g =
    subst SlotOk (some-injective _ _ g)
      (record { joined_open = λ h. refl; joined_named = refl; closing_active = λ h. refl })
slot-SlotOk (suc (suc i)) s g = absurd (ground (arith, g))

both :
    (a b s t : ClientSlot)
    → clash a b ≡ false
    → some a ≡ some s
    → some b ≡ some t
    → clash s t ≡ false
both a b s t h g g' =
    subst (λ (x : ClientSlot). clash x t ≡ false) (some-injective _ _ g)
      (subst (λ (y : ClientSlot). clash a y ≡ false) (some-injective _ _ g') h)

slots_apart :
    (i j : ℕ) (s t : ClientSlot)
    → i ≢ j
    → get_elem? two_clients.ctx.client_slots i ≡ some s
    → get_elem? two_clients.ctx.client_slots j ≡ some t
    → clash s t ≡ false
unfolding bytes_eq
slots_apart zero zero s t n g g' = absurd (n refl)
slots_apart zero (suc zero) s t n g g' = both first second s t refl g g'
slots_apart (suc zero) zero s t n g g' = both second first s t refl g g'
slots_apart (suc zero) (suc zero) s t n g g' = absurd (n refl)
slots_apart (suc (suc i)) j s t n g g' = absurd (ground (arith, g))
slots_apart zero (suc (suc j)) s t n g g' = absurd (ground (arith, g'))
slots_apart (suc zero) (suc (suc j)) s t n g g' = absurd (ground (arith, g'))

two_clients-IsWellFormed : IsWellFormed two_clients.ctx.client_slots
two_clients-IsWellFormed = record { each = slot-SlotOk; apart = slots_apart }

broadcast-Delivered_example :
    Delivered jammed (97 ∷ []) two_clients (broadcast jammed (97 ∷ []) two_clients)
broadcast-Delivered_example =
    broadcast-Delivered jammed jammed-Waits (97 ∷ []) two_clients two_clients-IsWellFormed
      two_clients-NonNegative

-- 5 is closed, and 6 is left.
closes_one : (broadcast_online_users_now jammed two_clients).0 ≡ true
unfolding broadcast_online_users_now broadcast_attempts send_text send_each close_client add ◌>>=◌
    ◌>>◌ done call tell get_ctx put_ctx locked current_timestamp_s Slots.mark_closing
closes_one = refl

-- The connection 5, and a free slot.
abbrev one_free : World (Unit {0})
one_free = record world {
  ctx = record (world.ctx) { client_slots = record client { fd = pos 5 } ∷ zero_slot ∷ [] };
}

pre_handshake-admits_example :
    Answered (pos 9) one_free.ctx.client_slots (pre_handshake jammed (pos 9) one_free)
pre_handshake-admits_example = pre_handshake-admits jammed jammed-Waits (pos 9) one_free
