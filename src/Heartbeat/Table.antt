-- ===== src/Heartbeat/Table.antt =====
-- A sweep over the whole table, and sweep after sweep.
use mathlib.Core.Option
use mathlib.Core.Path.{ap₂}
use esp32_web_chat.Common.{
  and-room, Bool-cases, ℕ, zero, suc, ◌-◌, ◌≤◌, ◌≡◌, ◌↔◌, refl, ap, ◌∙◌, ◌⊎◌, inl, inr, Bool, true,
  false, ◌&&◌, some, List, [], ◌∷◌, arith, get_elem?, length, if◌then◌else◌, ltb,
}
use esp32_web_chat.Common.Int.{ℤ, pos, ◌-ℤ◌, ◌≤ℤ◌, ◌<ℤ◌}
use esp32_web_chat.Common.Scan.{Pointwise}
use esp32_web_chat.Config.{ClientSlot}
use esp32_web_chat.Slots.{Slots, is_open}
use esp32_web_chat.Slots.WellFormed.{IsWellFormed, Tame-IsWellFormed}
use esp32_web_chat.Heartbeat.{sweep_slot, sweep_from, sweep, is_delayed, closes, pings}
use esp32_web_chat.Heartbeat.Slot.{
  sweep_slot-Tame, sweep_slot-fd, sweep_slot-silent, sweep_slot-closing, sweep_slot-closes_iff,
  sweep_slot-pings_iff, Expired,
}

module _ (delayed : Bool) (interval : ℕ) (now : ℤ) where
  -- The sweep treats each slot by itself.
  sweep_from-get :
      (ss : Slots) (close_room ping_room i : ℕ)
      → get_elem? (sweep_from delayed interval now ss close_room ping_room).slots i
        ≡ Option.map (λ s. (sweep_slot delayed interval now s).1) (get_elem? ss i)
  unfolding sweep_from
  sweep_from-get [] c p i = refl
  sweep_from-get (s ∷ ss) c p zero = refl
  sweep_from-get (s ∷ ss) c p (suc i) = sweep_from-get ss _ _ i

  pub sweep_from-Pointwise :
      (ss : Slots) (c p : ℕ)
      → Pointwise
          (λ i s s'. s' ≡ (sweep_slot delayed interval now s).1)
          ss
          (sweep_from delayed interval now ss c p).slots
  unfolding sweep_from
  sweep_from-Pointwise [] c p i s' e = cc
  sweep_from-Pointwise (s ∷ ss) c p zero s' e = (s, refl, cc)
  sweep_from-Pointwise (s ∷ ss) c p (suc i) s' e = sweep_from-Pointwise ss _ _ i s' e

  pub sweep_from-IsWellFormed :
      (ss : Slots) (c p : ℕ)
      → IsWellFormed ss
      → IsWellFormed (sweep_from delayed interval now ss c p).slots
  sweep_from-IsWellFormed ss c p = Tame-IsWellFormed ss _ λ i s' e.
      let (s, g, q) = sweep_from-Pointwise ss c p i s' e in
      (s, g, rw q (sweep_slot-Tame delayed interval now s))

-- The descriptors of the slots that pass a test.
abbrev pub fds_where : (ClientSlot → Bool) → Slots → List ℤ
fds_where t [] = []
fds_where t (s ∷ ss) = if t s then s.fd ∷ fds_where t ss else fds_where t ss

module _ (delayed : Bool) (interval : ℕ) (now : ℤ) where
  sweep_from-close_fds :
      (ss : Slots) (c p : ℕ)
      → length ss ≤ c
      → (sweep_from delayed interval now ss c p).close_fds
        ≡ fds_where (λ s. closes (sweep_slot delayed interval now s).0) ss
  unfolding sweep_from
  sweep_from-close_fds [] c p h = refl
  sweep_from-close_fds (s ∷ ss) c p h =
      let act = (sweep_slot delayed interval now s).0 in
      let p' = if pings act && ltb 0 p then p - 1 else p in
      rw (and-room (closes act) c (length ss) h) (elim (Bool-cases (closes act)) [
        | inl t ↦ rw t (ap (◌∷◌ s.fd) (sweep_from-close_fds ss (c - 1) p' (omega arith)))
        | inr t ↦ rw t (sweep_from-close_fds ss c p' (omega arith))
      ])

  sweep_from-ping_fds :
      (ss : Slots) (c p : ℕ)
      → length ss ≤ p
      → (sweep_from delayed interval now ss c p).ping_fds
        ≡ fds_where (λ s. pings (sweep_slot delayed interval now s).0) ss
  unfolding sweep_from
  sweep_from-ping_fds [] c p h = refl
  sweep_from-ping_fds (s ∷ ss) c p h =
      let act = (sweep_slot delayed interval now s).0 in
      let c' = if closes act && ltb 0 c then c - 1 else c in
      rw (and-room (pings act) p (length ss) h) (elim (Bool-cases (pings act)) [
        | inl t ↦ rw t (
            ap₂ ◌∷◌ (sweep_slot-fd delayed interval now s)
              (sweep_from-ping_fds ss c' (p - 1) (omega arith)))
        | inr t ↦ rw t (sweep_from-ping_fds ss c' p (omega arith))
      ])

-- The connections that a sweep pings are, in table order, those of exactly the open joined clients
-- that are alive and had their last ping an interval or more ago, or are not alive where the sweep
-- is late.
pub sweep_pings :
    (interval : ℕ) (last now : ℤ) (ss : Slots)
    → (due : ClientSlot → Bool) × ((sweep interval last now ss).ping_fds ≡ fds_where due ss)
      × ((s : ClientSlot)
          → (due s ≡ true) ↔ (
              (is_open s ≡ true)
              × (s.joined ≡ true)
              × (((s.is_alive ≡ true) × (pos interval ≤ℤ now -ℤ s.last_ping_s))
                  ⊎ ((s.is_alive ≡ false) × (is_delayed interval last now ≡ true)))))
unfolding sweep
sweep_pings interval last now ss = (
  λ s. pings (sweep_slot (is_delayed interval last now) interval now s).0,
  sweep_from-ping_fds _ interval now ss (length ss) (length ss) (omega arith),
  sweep_slot-pings_iff (is_delayed interval last now) interval now,
)

-- The connections that a sweep closes are, in table order, those of exactly the open clients that
-- have expired if the sweep is on time, and none if it is late.
pub sweep_closes-Expired :
    (interval : ℕ) (last now : ℤ) (ss : Slots)
    → (expired : ClientSlot → Bool) × ((sweep interval last now ss).close_fds
        ≡ fds_where expired ss)
      × ((s : ClientSlot)
          → (expired s ≡ true) ↔ (
              (is_open s ≡ true) × (is_delayed interval last now ≡ false) × Expired interval now s))
unfolding sweep
sweep_closes-Expired interval last now ss = (
  λ s. closes (sweep_slot (is_delayed interval last now) interval now s).0,
  sweep_from-close_fds _ interval now ss (length ss) (length ss) (omega arith),
  sweep_slot-closes_iff (is_delayed interval last now) interval now,
)

-- A heartbeat sweep keeps a well-formed client table well formed.
pub sweep-IsWellFormed :
    (interval : ℕ) (last now : ℤ) (ss : Slots)
    → IsWellFormed ss
    → IsWellFormed (sweep interval last now ss).slots
unfolding sweep
sweep-IsWellFormed interval last now ss =
    sweep_from-IsWellFormed (is_delayed interval last now) interval now ss (length ss) (length ss)

-- Sweeps at the given times, one after the other, with nothing from the clients in between.
unfoldable pub sweeps : ℕ → ℤ → List ℤ → Slots → Slots
sweeps interval last [] ss = ss
sweeps interval last (now ∷ times) ss = sweeps interval now times (sweep interval last now ss).slots

-- No sweep comes late.
abbrev pub OnTime : ℕ → ℤ → List ℤ → Type 0
OnTime interval last [] = Unit {0}
OnTime interval last (now ∷ times) =
    (is_delayed interval last now ≡ false) × OnTime interval now times

-- Some sweep comes when the deadline has passed.
abbrev pub Due : (ℤ → Type 0) → List ℤ → Type 0
Due passed [] = ⊥
Due passed (now ∷ times) = passed now ⊎ Due passed times

sweep-closing :
    (interval : ℕ) (last now : ℤ) (i : ℕ) (s : ClientSlot) (ss : Slots)
    → get_elem? ss i ≡ some s
    → get_elem? (sweep interval last now ss).slots i
      ≡ some (sweep_slot (is_delayed interval last now) interval now s).1
unfolding sweep
sweep-closing interval last now i s ss g =
    sweep_from-get _ interval now ss _ _ i ∙ ap (Option.map _) g

sweeps-closing :
    (interval : ℕ) (last : ℤ) (times : List ℤ) (i : ℕ) (s : ClientSlot) (ss : Slots)
    → get_elem? ss i ≡ some s
    → s.closing ≡ true
    → get_elem? (sweeps interval last times ss) i ≡ some s
unfolding sweeps
sweeps-closing interval last [] i s ss g h = g
sweeps-closing interval last (now ∷ times) i s ss g h =
    sweeps-closing interval now times i s _
      (sweep-closing interval last now i s ss g
        ∙ ap (λ r. some r.1) (sweep_slot-closing (is_delayed interval last now) interval now s h))
      h

-- A joined client on an open connection whose ping is unanswered is closed by the end of any
-- series of on-time sweeps of which one comes an interval or more after the ping.
pub sweeps_close_silent :
    (interval : ℕ) (last : ℤ) (times : List ℤ) (i : ℕ) (s : ClientSlot) (ss : Slots)
    → get_elem? ss i ≡ some s
    → is_open s ≡ true
    → s.joined ≡ true
    → s.is_alive ≡ false
    → OnTime interval last times
    → Due (λ now. pos interval ≤ℤ now -ℤ s.last_ping_s) times
    → (s' : ClientSlot) × (get_elem? (sweeps interval last times ss) i ≡ some s')
      × (s'.closing ≡ true)
unfolding sweeps
sweeps_close_silent interval last [] i s ss g o j a t d = absurd d
sweeps_close_silent interval last (now ∷ times) i s ss g o j a t d =
    let g' =
      sweep-closing interval last now i s ss g
      ∙ ap (λ b. some (sweep_slot b interval now s).1) t.0 in
    elim (sweep_slot-silent interval now s o j a) [
      | inl h ↦ (_, sweeps-closing interval now times i _ _ g' h, h)
      | inr (h, e) ↦
          sweeps_close_silent interval now times i s _ (g' ∙ ap some e) o j a t.1 (later d h)
    ]
  where
    later :
        Due (λ now. pos interval ≤ℤ now -ℤ s.last_ping_s) (now ∷ times)
        → now -ℤ s.last_ping_s <ℤ pos interval
        → Due (λ now. pos interval ≤ℤ now -ℤ s.last_ping_s) times
    later (inl p) q = absurd (omega arith)
    later (inr p) q = p
