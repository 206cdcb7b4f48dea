-- ===== src/Slots/Identity.antt =====
-- chat_sessions_update_identity as a whole: the invariant, and who holds the user afterwards.
use esp32_web_chat.Common.{
  ℕ, ◌≤◌, ◌≡◌, inl, inr, true, false, Option, none, some, Bytes, is_empty, get_elem?, length,
  Option-cases,
}
use esp32_web_chat.Common.Int.{ℤ}
use esp32_web_chat.Config.{ClientSlot, max_user_id_len}
use esp32_web_chat.Slots.{
  Slots, identity_ok, check_identity, update_identity, evict_others, pick_target, scan_slots,
}
use esp32_web_chat.Slots.WellFormed.{IsWellFormed}
use esp32_web_chat.Slots.Target.{pick_target-Target}
use esp32_web_chat.Slots.Join.{evicted-IsWellFormed, joined_identity, joiner, holder_fd}

module _ (now fd : ℤ) (u : Bytes) (name : Option Bytes) (ss : Slots) (named : is_empty u ≡ false)
    (short : length u ≤ max_user_id_len) (w : IsWellFormed ss) where
  -- Joining with a non-empty user id of at most 63 bytes keeps a well-formed client table well
  -- formed: no two slots hold one user, and no two open slots hold one connection.
  pub update_identity-IsWellFormed : IsWellFormed (update_identity now fd (some u) name ss).slots
  unfolding update_identity evict_others joiner
  update_identity-IsWellFormed = elim (Option-cases (pick_target (scan_slots fd 0 none none ss))) [
    | inl e ↦ rw (e, update_identity) w
    | inr (k, e) ↦
        rw (e, update_identity)
          (evicted-IsWellFormed now fd u name ss named short w k _ (pick_target-Target fd ss k e))
  ]

  -- On a well-formed table, after a join that succeeds with a non-empty user id of at most 63
  -- bytes, the connection passes the identity check of that user, and every joined slot with that
  -- user id is on the connection.
  pub update_identity_takes_over :
      (update_identity now fd (some u) name ss).updated ≡ true
      → (check_identity fd (some u) (update_identity now fd (some u) name ss).slots ≡ identity_ok)
        × ((i : ℕ) (s : ClientSlot)
            → get_elem? (update_identity now fd (some u) name ss).slots i ≡ some s
            → s.joined ≡ true
            → s.user_id ≡ u
            → s.fd ≡ fd)
  unfolding update_identity evict_others joiner
  update_identity_takes_over ok = elim (Option-cases (pick_target (scan_slots fd 0 none none ss))) [
    | inl e ↦ cc (rw (update_identity, e) at ok)
    | inr (k, e) ↦
        rw (e, update_identity)
          (
            joined_identity now fd u name ss named short w k _ (pick_target-Target fd ss k e),
            λ i s g.
                holder_fd now fd u name ss named short w k _ i s (pick_target-Target fd ss k e) g,
          )
  ]
