-- ===== src/Heartbeat.antt =====
-- heartbeat_sweep_work of main/src/chat/sessions.c while it holds `client_mutex`: what a sweep
-- does to the client table, and which connections it will close and ping afterwards.
pub mod Slot
pub mod Table
use esp32_web_chat.Common.{
  ℕ, zero, suc, ◌-◌, Bool, true, false, not, ◌&&◌, ◌||◌, List, [], ◌∷◌, if◌then◌else◌, ltb, length,
}
use esp32_web_chat.Common.Int.{ℤ, pos, ◌-ℤ◌, ltb_ℤ}
use esp32_web_chat.Config.{ClientSlot, ws_join_timeout_s}
use esp32_web_chat.Slots.{Slots, mark_slot_closing}

-- What the loop body does with a slot besides writing it.
pub data Action : Type 0 where
  skip close_unjoined close_dead ping : Action

-- The body from the comment on delayed tasks on: the slot has joined.
unfoldable pub sweep_joined : ℕ → ℤ → ClientSlot → Action × ClientSlot
unfolding mark_slot_closing ◌-ℤ◌
sweep_joined interval now s =
    if not s.is_alive
    then (if ltb_ℤ (now -ℤ s.last_ping_s) (pos interval)
        then (skip, s)
        else (close_dead, (mark_slot_closing s).1))
    else if ltb_ℤ (now -ℤ s.last_ping_s) (pos interval)
    then (skip, s)
    else (ping, record s { is_alive = false; last_ping_s = now })

-- A late sweep gives a client whose pong may still be queued another interval.
unfoldable pub forgive : Bool → ℕ → ℤ → ClientSlot → ClientSlot
unfolding ◌-ℤ◌
forgive delayed interval now s =
    if delayed && not s.is_alive
    then record s { is_alive = true; last_ping_s = now -ℤ pos interval }
    else s

-- The whole loop body.
unfoldable pub sweep_slot : Bool → ℕ → ℤ → ClientSlot → Action × ClientSlot
unfolding sweep_joined forgive mark_slot_closing ◌-ℤ◌
sweep_slot delayed interval now s =
    if not s.active || s.closing
    then (skip, s)
    else if not s.joined
    then (if delayed
        then (skip, record s { registered_at_s = now })
        else if ltb_ℤ (now -ℤ s.registered_at_s) (pos ws_join_timeout_s)
        then (skip, s)
        else (close_unjoined, (mark_slot_closing s).1))
    else sweep_joined interval now (forgive delayed interval now s)

pub record Sweep : Type 0 where
  pub close_fds : List ℤ
  pub ping_fds : List ℤ
  pub changed : Bool
  pub slots : Slots

abbrev pub closes : Action → Bool
closes close_unjoined = true
closes close_dead = true
closes _ = false

abbrev pub pings : Action → Bool
pings ping = true
pings _ = false

abbrev pub changes : Action → Bool
changes close_dead = true
changes _ = false

-- The loop, with the places left in `close_fds` and in `ping_fds`.
unfoldable pub sweep_from : Bool → ℕ → ℤ → Slots → ℕ → ℕ → Sweep
sweep_from delayed interval now [] close_room ping_room = record {
  close_fds = [];
  ping_fds = [];
  changed = false;
  slots = [];
}
sweep_from delayed interval now (s ∷ ss) close_room ping_room =
    let (act, s') = sweep_slot delayed interval now s in
    let to_close = closes act && ltb 0 close_room in
    let to_ping = pings act && ltb 0 ping_room in
    let rest =
      sweep_from delayed interval now ss (if to_close then close_room - 1 else close_room)
        (if to_ping then ping_room - 1 else ping_room) in
    record {
      close_fds = if to_close then s.fd ∷ rest.close_fds else rest.close_fds;
      ping_fds = if to_ping then s'.fd ∷ rest.ping_fds else rest.ping_fds;
      changed = changes act || rest.changed;
      slots = s' ∷ rest.slots;
    }

-- `now_s - last_heartbeat_sweep_s > HEARTBEAT_INTERVAL_S`.
unfoldable pub is_delayed : ℕ → ℤ → ℤ → Bool
unfolding ◌-ℤ◌
is_delayed interval last now = ltb_ℤ (pos interval) (now -ℤ last)

-- A sweep at `now` after one at `last`.
unfoldable pub sweep : ℕ → ℤ → ℤ → Slots → Sweep
unfolding sweep_from is_delayed
sweep interval last now ss =
    sweep_from (is_delayed interval last now) interval now ss (length ss) (length ss)
