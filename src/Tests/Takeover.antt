-- ===== src/Tests/Takeover.antt =====
-- A takeover with its sends and closes.
use esp32_web_chat.Common.{refl, none, some, [], ◌∷◌, arith}
use esp32_web_chat.Common.Int.{pos}
use esp32_web_chat.Slots.WellFormed.{IsWellFormed}
use esp32_web_chat.Platform.{World}
use esp32_web_chat.Takeover.{update_identity}
use esp32_web_chat.Takeover.Invariant.{takeover-IsWellFormed}
use esp32_web_chat.Tests.Table.{joined, joined-IsWellFormed}
use esp32_web_chat.Tests.Store.{ready, world}

-- The connections 5, which has joined as "a", and 6.
abbrev pub before : World (Unit {0})
before = record world { ctx = record (world.ctx) { client_slots = joined } }

takeover-IsWellFormed_example :
    IsWellFormed (update_identity ready (pos 6) (some (97 ∷ [])) none before).1.ctx.client_slots
takeover-IsWellFormed_example =
    takeover-IsWellFormed ready (pos 6) (97 ∷ []) none refl (ground arith) before
      joined-IsWellFormed
