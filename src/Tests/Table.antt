-- ===== src/Tests/Table.antt =====
-- The client table, its heartbeat and the clock consensus on small inputs.
use esp32_web_chat.Common.{
  ℕ, zero, suc, ◌≡◌, ◌≢◌, refl, Bool, true, false, none, some, [], ◌∷◌, get_elem?, arith, inl, inr,
  ◌⊎◌, ◌↔◌, bytes_eq_refl,
}
use esp32_web_chat.Common.Int.{ℤ, pos, negsuc, ◌≤ℤ◌, ◌-ℤ◌, ◌+ℤ◌}
use esp32_web_chat.Config.{ClientSlot}
use esp32_web_chat.Slots.{
  Slots, ensure_slot, update_identity, check_identity, identity_ok, is_open, is_stale,
}
use esp32_web_chat.Slots.WellFormed.{IsWellFormed, SlotOk, clash, ensure_slot-IsWellFormed}
use esp32_web_chat.Slots.Identity.{update_identity-IsWellFormed, update_identity_takes_over}
use esp32_web_chat.Heartbeat.{sweep, sweep_slot, is_delayed}
use esp32_web_chat.Heartbeat.Slot.{Expired}
use esp32_web_chat.Heartbeat.Table.{
  sweep_closes-Expired, sweep_pings, sweep-IsWellFormed, sweeps, sweeps_close_silent, fds_where,
}
use esp32_web_chat.TimeSync.{consensus}
use esp32_web_chat.TimeSync.Majority.{Agreed, consensus-Agreed, consensus_exists}

abbrev free_slot : ClientSlot
free_slot = record {
  fd = negsuc 0;
  active = false;
  closing = false;
  joined = false;
  is_alive = false;
  time_offset_valid = false;
  time_offset_s = pos 0;
  registered_at_s = pos 0;
  last_ping_s = pos 0;
  user_id = [];
  name = [];
}

abbrev empty_table : Slots
empty_table = free_slot ∷ free_slot ∷ []

empty_table-IsWellFormed : IsWellFormed empty_table
empty_table-IsWellFormed = record { each = each_ok; apart = all_apart }
  where
    each_ok : (i : ℕ) (s : ClientSlot) → get_elem? empty_table i ≡ some s → SlotOk s
    each_ok zero s e = ground arith
    each_ok (suc zero) s e = ground arith
    each_ok (suc (suc i)) s e = ground arith

    all_apart :
        (i j : ℕ) (s t : ClientSlot)
        → i ≢ j
        → get_elem? empty_table i ≡ some s
        → get_elem? empty_table j ≡ some t
        → clash s t ≡ false
    all_apart zero j s t ne e f = ground arith
    all_apart (suc zero) j s t ne e f = ground arith
    all_apart (suc (suc i)) j s t ne e f = ground arith

-- Two connections, 5 and 6; then 5 joins as "a".
abbrev connected : Slots
connected = (ensure_slot (pos 6) (pos 10) (ensure_slot (pos 5) (pos 10) empty_table).1).1

abbrev pub joined : Slots
joined = (update_identity (pos 20) (pos 5) (some (97 ∷ [])) (some (65 ∷ [])) connected).slots

connected-IsWellFormed : IsWellFormed connected
connected-IsWellFormed =
    ensure_slot-IsWellFormed (pos 6) (pos 10) (ensure_slot (pos 5) (pos 10) empty_table).1
      (ensure_slot-IsWellFormed (pos 5) (pos 10) empty_table empty_table-IsWellFormed)

pub joined-IsWellFormed : IsWellFormed joined
joined-IsWellFormed =
    update_identity-IsWellFormed (pos 20) (pos 5) (97 ∷ []) (some (65 ∷ [])) connected refl
      (ground arith) connected-IsWellFormed

-- 6 takes the user over from 5.
takeover_closes :
    (update_identity (pos 30) (pos 6) (some (97 ∷ [])) none joined).stale_fds ≡ pos 5 ∷ []
unfolding update_identity ensure_slot is_stale
takeover_closes = rw (bytes_eq_refl (97 ∷ [])) refl

update_identity-IsWellFormed_example :
    IsWellFormed (update_identity (pos 30) (pos 6) (some (97 ∷ [])) none joined).slots
update_identity-IsWellFormed_example =
    update_identity-IsWellFormed (pos 30) (pos 6) (97 ∷ []) none joined refl (ground arith)
      joined-IsWellFormed

update_identity_takes_over_example :
    (check_identity
        (pos 6)
        (some (97 ∷ []))
        (update_identity (pos 30) (pos 6) (some (97 ∷ [])) none joined).slots
      ≡ identity_ok)
    × ((i : ℕ) (s : ClientSlot)
        → get_elem? (update_identity (pos 30) (pos 6) (some (97 ∷ [])) none joined).slots i ≡ some s
        → s.joined ≡ true
        → s.user_id ≡ 97 ∷ []
        → s.fd ≡ pos 6)
unfolding update_identity ensure_slot is_stale
update_identity_takes_over_example =
    update_identity_takes_over (pos 30) (pos 6) (97 ∷ []) none joined refl (ground arith)
      joined-IsWellFormed refl

-- A sweep at 40, after one at 35, pings 5 and closes 6, which has not joined for 30 seconds.
sweep_run :
    ((sweep 10 (pos 35) (pos 40) joined).close_fds ≡ pos 6 ∷ [])
    × ((sweep 10 (pos 35) (pos 40) joined).ping_fds ≡ pos 5 ∷ [])
unfolding sweep update_identity ensure_slot sweep_slot is_stale
sweep_run = (refl, refl)

sweep_closes-Expired_example :
    (expired : ClientSlot → Bool) × ((sweep 10 (pos 35) (pos 40) joined).close_fds
      ≡ fds_where expired joined)
    × ((s : ClientSlot)
        → (expired s ≡ true) ↔ (
            (is_open s ≡ true) × (is_delayed 10 (pos 35) (pos 40) ≡ false) × Expired 10 (pos 40) s))
sweep_closes-Expired_example = sweep_closes-Expired 10 (pos 35) (pos 40) joined

sweep_pings_example :
    (due : ClientSlot → Bool) × ((sweep 10 (pos 35) (pos 40) joined).ping_fds
      ≡ fds_where due joined)
    × ((s : ClientSlot)
        → (due s ≡ true) ↔ (
            (is_open s ≡ true)
            × (s.joined ≡ true)
            × (((s.is_alive ≡ true) × (pos 10 ≤ℤ pos 40 -ℤ s.last_ping_s))
                ⊎ ((s.is_alive ≡ false) × (is_delayed 10 (pos 35) (pos 40) ≡ true)))))
sweep_pings_example = sweep_pings 10 (pos 35) (pos 40) joined

sweep-IsWellFormed_example : IsWellFormed (sweep 10 (pos 35) (pos 40) joined).slots
sweep-IsWellFormed_example = sweep-IsWellFormed 10 (pos 35) (pos 40) joined joined-IsWellFormed

-- A client that was pinged at 30 and has not answered, and sweeps at 35 and at 40.
abbrev silent : ClientSlot
silent = record free_slot {
  fd = pos 5;
  active = true;
  joined = true;
  last_ping_s = pos 30;
  user_id = 97 ∷ [];
}

sweeps_close_silent_example :
    (s' : ClientSlot) × (get_elem? (sweeps 10 (pos 30) (pos 35 ∷ pos 40 ∷ []) (silent ∷ [])) 0
      ≡ some s')
    × (s'.closing ≡ true)
unfolding is_delayed ◌-ℤ◌
sweeps_close_silent_example =
    sweeps_close_silent 10 (pos 30) (pos 35 ∷ pos 40 ∷ []) 0 silent (silent ∷ []) refl refl refl
      refl (refl, (refl, tt)) (inr (inl (omega arith)))

-- Three clients, of which two agree.
consensus-Agreed_example : Agreed (pos 1000 ∷ pos 1010 ∷ pos 5000 ∷ []) (pos 1005)
unfolding consensus
consensus-Agreed_example = consensus-Agreed (pos 1000 ∷ pos 1010 ∷ pos 5000 ∷ []) (pos 1005) refl

consensus_exists_example : (r : ℤ) × (consensus (pos 1000 ∷ pos 1010 ∷ pos 5000 ∷ []) ≡ some r)
unfolding ◌+ℤ◌
consensus_exists_example =
    consensus_exists (pos 1000 ∷ pos 1010 ∷ pos 5000 ∷ []) (pos 1000) (inl refl) (omega arith)
