-- ===== src/Server/Recipients.antt =====
-- Whom a broadcast is sent to, and who is left after a client was closed.
use esp32_web_chat.Common.{
  ℕ, suc, ◌≤◌, ◌<◌, ◌≡◌, refl, false, ◌&&◌, List, [], ◌∷◌, ◌++◌, length, arith, if◌then◌else◌,
}
use esp32_web_chat.Common.Int.{ℤ, pos, eqb_ℤ, eqb_ℤ_refl, ltb_ℤ}
use esp32_web_chat.Common.Scan.{update_all}
use esp32_web_chat.Config.{ClientSlot}
use esp32_web_chat.Slots.{
  Slots, is_open, has_fd, clear_slot_identity, mark_slot_closing, mark_closing, remove_by_fd,
}
use esp32_web_chat.Server.{broadcast_fds}

unfoldable pub without : ℤ → List ℤ → List ℤ
without fd [] = []
without fd (g ∷ gs) = if eqb_ℤ g fd then without fd gs else g ∷ without fd gs

-- No descriptor is negative.
abbrev pub NonNegative : List ℤ → Type 0
NonNegative [] = Unit
NonNegative (fd ∷ fds) = (ltb_ℤ fd (pos 0) ≡ false) × NonNegative fds

-- Fewer than `n` descriptors, none negative.
abbrev pub Bounded : ℕ → List ℤ → Type 0
Bounded n fds = (length fds < n) × NonNegative fds

length-without : (fd : ℤ) (l : List ℤ) → length (without fd l) ≤ length l
unfolding without
length-without fd [] = omega arith
length-without fd (g ∷ gs) = ground (arith, length-without fd gs)

without-NonNegative : (fd : ℤ) (l : List ℤ) → NonNegative l → NonNegative (without fd l)
unfolding without
without-NonNegative fd [] h = h
without-NonNegative fd (g ∷ gs) h = ground (arith, without-NonNegative fd gs)

pub without-Bounded : (fd : ℤ) (n : ℕ) (l : List ℤ) → Bounded n l → Bounded n (without fd l)
without-Bounded fd n l h = (omega (arith, length-without fd l), without-NonNegative fd l h.1)

length-without_member :
    (before : List ℤ) (fd : ℤ) (after : List ℤ)
    → length (without fd (before ++ fd ∷ after)) < length (before ++ fd ∷ after)
unfolding without
length-without_member [] fd after = ground (arith, eqb_ℤ_refl fd, length-without fd after)
length-without_member (g ∷ gs) fd after = ground (arith, length-without_member gs fd after)

pub without_member-Bounded :
    (before : List ℤ) (fd : ℤ) (after : List ℤ) (n : ℕ)
    → Bounded (suc n) (before ++ fd ∷ after)
    → Bounded n (without fd (before ++ fd ∷ after))
without_member-Bounded before fd after n h = (
  omega (arith, length-without_member before fd after),
  without-NonNegative fd (before ++ fd ∷ after) h.1,
)

-- What a change does that takes the slots of a descriptor off the broadcast.
module _ (fd : ℤ) (f : ClientSlot → ClientSlot)
    (off : (s : ClientSlot) → (is_open (f s) && (f s).joined) ≡ false) where
  broadcast_fds-update :
      (ss : Slots) → broadcast_fds (update_all (has_fd fd) f ss) ≡ without fd (broadcast_fds ss)
  unfolding broadcast_fds update_all without
  broadcast_fds-update [] = refl
  broadcast_fds-update (s ∷ ss) = ground (arith, off s, broadcast_fds-update ss)

closing-off :
    (s : ClientSlot) → (is_open (mark_slot_closing s).1 && (mark_slot_closing s).1.joined) ≡ false
unfolding mark_slot_closing
closing-off s = ground arith

pub broadcast_fds-mark_closing :
    (fd : ℤ) (ss : Slots) → broadcast_fds (mark_closing fd ss).1 ≡ without fd (broadcast_fds ss)
unfolding mark_closing
broadcast_fds-mark_closing fd = broadcast_fds-update fd _ closing-off

pub broadcast_fds-remove_by_fd :
    (fd : ℤ) (ss : Slots) → broadcast_fds (remove_by_fd fd ss).1 ≡ without fd (broadcast_fds ss)
unfolding remove_by_fd clear_slot_identity
broadcast_fds-remove_by_fd fd = broadcast_fds-update fd _ (λ s. refl)

pub length-broadcast_fds : (ss : Slots) → length (broadcast_fds ss) ≤ length ss
unfolding broadcast_fds
length-broadcast_fds [] = omega arith
length-broadcast_fds (s ∷ ss) = ground (arith, length-broadcast_fds ss)
