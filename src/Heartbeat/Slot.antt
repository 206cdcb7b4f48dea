-- ===== src/Heartbeat/Slot.antt =====
-- When a sweep closes, pings or spares one client.
use esp32_web_chat.Common.{ℕ, ◌≡◌, ◌⊎◌, Bool, true, false, arith, ◌↔◌, subst, sym}
use esp32_web_chat.Common.Int.{ℤ, pos, ◌-ℤ◌, ◌≤ℤ◌, ◌<ℤ◌}
use esp32_web_chat.Config.{ClientSlot, ws_join_timeout_s}
use esp32_web_chat.Slots.{is_open}
use esp32_web_chat.Slots.WellFormed.{Tame, SlotOk}
use esp32_web_chat.Heartbeat.{skip, pings, sweep_slot, closes}

-- A client that is to be closed: it did not join in time, or did not answer the last ping in time.
abbrev pub Expired : ℕ → ℤ → ClientSlot → Type 0
Expired interval now s =
    ((s.joined ≡ false) × (pos ws_join_timeout_s ≤ℤ now -ℤ s.registered_at_s))
    ⊎ ((s.joined ≡ true) × (s.is_alive ≡ false) × (pos interval ≤ℤ now -ℤ s.last_ping_s))

sweep_slot-closes :
    (delayed : Bool) (interval : ℕ) (now : ℤ) (s : ClientSlot)
    → is_open s ≡ true
    → closes (sweep_slot delayed interval now s).0 ≡ true
    → (delayed ≡ false) × Expired interval now s
unfolding sweep_slot
sweep_slot-closes delayed interval now s o h = ground arith

sweep_slot-Expired :
    (interval : ℕ) (now : ℤ) (s : ClientSlot)
    → is_open s ≡ true
    → Expired interval now s
    → closes (sweep_slot false interval now s).0 ≡ true
unfolding sweep_slot
sweep_slot-Expired interval now s o e = ground arith

sweep_slot_closed :
    (delayed : Bool) (interval : ℕ) (now : ℤ) (s : ClientSlot)
    → closes (sweep_slot delayed interval now s).0 ≡ true
    → is_open s ≡ true
unfolding sweep_slot
sweep_slot_closed delayed interval now s h = ground arith

-- The loop body closes a client exactly if it is an open one, the sweep is on time and the client
-- has expired.
pub sweep_slot-closes_iff :
    (delayed : Bool) (interval : ℕ) (now : ℤ) (s : ClientSlot)
    → (closes (sweep_slot delayed interval now s).0 ≡ true)
      ↔ ((is_open s ≡ true) × (delayed ≡ false) × Expired interval now s)
sweep_slot-closes_iff delayed interval now s = (
  λ c.
      let o = sweep_slot_closed delayed interval now s c in
      let r = sweep_slot-closes delayed interval now s o c in (o, r.0, r.1),
  λ h.
      subst (λ d. closes (sweep_slot d interval now s).0 ≡ true) (sym h.1)
        (sweep_slot-Expired interval now s h.0 h.2),
)

module _ (delayed : Bool) (interval : ℕ) (now : ℤ) (s : ClientSlot) where
  tame_ok : SlotOk s → SlotOk (sweep_slot delayed interval now s).1
  unfolding sweep_slot
  tame_ok h = ground arith

  tame_user :
      (sweep_slot delayed interval now s).1.joined ≡ true
      → (s.joined ≡ true) × ((sweep_slot delayed interval now s).1.user_id ≡ s.user_id)
  unfolding sweep_slot
  tame_user h = ground arith

  tame_fd :
      is_open (sweep_slot delayed interval now s).1 ≡ true
      → (is_open s ≡ true) × ((sweep_slot delayed interval now s).1.fd ≡ s.fd)
  unfolding sweep_slot
  tame_fd h = ground arith

-- A sweep takes no user and no connection on.
pub sweep_slot-Tame :
    (delayed : Bool) (interval : ℕ) (now : ℤ) (s : ClientSlot)
    → Tame s (sweep_slot delayed interval now s).1
sweep_slot-Tame delayed interval now s = record {
  ok = λ h. tame_ok delayed interval now s h;
  same_user_id = tame_user delayed interval now s;
  same_fd = tame_fd delayed interval now s;
}

-- What a sweep on time does with a client that has not answered the last ping.
pub sweep_slot-silent :
    (interval : ℕ) (now : ℤ) (s : ClientSlot)
    → is_open s ≡ true
    → s.joined ≡ true
    → s.is_alive ≡ false
    → ((sweep_slot false interval now s).1.closing ≡ true)
      ⊎ ((now -ℤ s.last_ping_s <ℤ pos interval) × ((sweep_slot false interval now s).1 ≡ s))
unfolding sweep_slot
sweep_slot-silent interval now s o j a = ground arith

pub sweep_slot-closing :
    (delayed : Bool) (interval : ℕ) (now : ℤ) (s : ClientSlot)
    → s.closing ≡ true
    → sweep_slot delayed interval now s ≡ (skip, s)
unfolding sweep_slot
sweep_slot-closing delayed interval now s h = ground arith

pub sweep_slot-fd :
    (delayed : Bool) (interval : ℕ) (now : ℤ) (s : ClientSlot)
    → (sweep_slot delayed interval now s).1.fd ≡ s.fd
unfolding sweep_slot
sweep_slot-fd delayed interval now s = ground arith

sub_sub : (now : ℤ) (n : ℕ) → (now -ℤ (now -ℤ pos n)) ≡ pos n
unfolding ◌-ℤ◌
sub_sub now n = ground arith

-- The loop body pings exactly the clients that are alive and due, and the silent ones that a late
-- sweep forgives.
pub sweep_slot-pings_iff :
    (delayed : Bool) (interval : ℕ) (now : ℤ) (s : ClientSlot)
    → (pings (sweep_slot delayed interval now s).0 ≡ true) ↔ (
        (is_open s ≡ true)
        × (s.joined ≡ true)
        × (((s.is_alive ≡ true) × (pos interval ≤ℤ now -ℤ s.last_ping_s))
            ⊎ ((s.is_alive ≡ false) × (delayed ≡ true))))
unfolding sweep_slot
sweep_slot-pings_iff delayed interval now s = ground (arith, sub_sub now interval)
