-- ===== src/Slots/Lookup.antt =====
-- What the loop over the other sessions of a user leaves at each index.
use mathlib.Core.Option.{some-injective}
use esp32_web_chat.Common.{
  ℕ, zero, suc, ◌+◌, ◌≡◌, refl, ◌⊎◌, inl, inr, Bool, true, false, some, List, [], ◌∷◌, Bytes,
  get_elem?, arith, Bool-cases, sym, subst, ap, ◌≤◌, ◌-◌, length, if◌then◌else◌, ◌&&◌, not, ltb,
}
use esp32_web_chat.Common.Int.{ℤ, pos, leb_ℤ, eqb_ℤ}
use esp32_web_chat.Common.Scan.{Pointwise}
use esp32_web_chat.Config.{ClientSlot}
use esp32_web_chat.Slots.{Slots, evict, is_stale, mark_slot_closing}

abbrev pub Evicted : Bytes → ℕ → ℕ → ClientSlot → ClientSlot → Type 0
Evicted user target k s s' =
    ((is_stale user target k s ≡ false) × (s' ≡ s))
    ⊎ ((is_stale user target k s ≡ true) × (s' ≡ (mark_slot_closing s).1))

pub evict-get :
    (fd : ℤ) (user : Bytes) (target : ℕ) (ss : Slots) (room base : ℕ)
    → Pointwise (λ i. Evicted user target (base + i)) ss (evict fd user target ss room base).1
unfolding evict
evict-get fd user target [] room base i s' e = cc
evict-get fd user target (s ∷ ss) room base zero s' e = (
  s,
  refl,
  subst (λ k. Evicted user target k s s') (omega arith)
      (here (Bool-cases (is_stale user target base s))),
)
  where
    here :
        (is_stale user target base s ≡ true) ⊎ (is_stale user target base s ≡ false)
        → Evicted user target base s s'
    here (inl h) = inr (h, sym (some-injective _ _ (rw (evict, h) at e)))
    here (inr h) = inl (h, sym (some-injective _ _ (rw (evict, h) at e)))
evict-get fd user target (s ∷ ss) room base (suc i) s' e =
    let (t, g, q) = evict-get fd user target ss _ (suc base) i s' e in
    (t, g, subst (λ k. Evicted user target k t s') (omega arith) q)

-- The loop keeps every index.
pub evict-some :
    (fd : ℤ) (user : Bytes) (target : ℕ) (ss : Slots) (room base i : ℕ) (s : ClientSlot)
    → get_elem? ss i ≡ some s
    → (s' : ClientSlot) × (get_elem? (evict fd user target ss room base).1 i ≡ some s')
unfolding evict
evict-some fd user target [] room base i s e = cc
evict-some fd user target (x ∷ ss) room base zero s e = (_, refl)
evict-some fd user target (x ∷ ss) room base (suc i) s e =
    evict-some fd user target ss _ (suc base) i s e

-- The sessions that the loop is meant to notify: those of the user at other indices, on another
-- connection.
abbrev pub to_notify : ℤ → Bytes → ℕ → ℕ → Slots → List ℤ
to_notify fd user target i [] = []
to_notify fd user target i (s ∷ ss) =
    if is_stale user target i s && leb_ℤ (pos 0) s.fd && not (eqb_ℤ s.fd fd)
    then s.fd ∷ to_notify fd user target (suc i) ss
    else to_notify fd user target (suc i) ss

-- The loop's test of `stale_count < MAX_CLIENTS` passes while there is room.
room_test : (a b c : Bool) (room n : ℕ) → suc n ≤ room → (a && b && c && ltb 0 room) ≡ (a && b && c)
room_test a b c room n h = ground arith

-- The array of descriptors has a place for each of them, so its bound never stops the loop.
pub evict-fds :
    (fd : ℤ) (user : Bytes) (target : ℕ) (ss : Slots) (room base : ℕ)
    → length ss ≤ room
    → (evict fd user target ss room base).0 ≡ to_notify fd user target base ss
unfolding evict
evict-fds fd user target [] room base h = refl
evict-fds fd user target (s ∷ ss) room base h =
    let a = is_stale user target base s in
    let b = leb_ℤ (pos 0) s.fd in
    let c = not (eqb_ℤ s.fd fd) in
    rw (room_test a b c room (length ss) h) (elim (Bool-cases (a && b && c)) [
      | inl t ↦
          rw t (ap (◌∷◌ s.fd) (evict-fds fd user target ss (room - 1) (suc base) (omega arith)))
      | inr t ↦ rw t (evict-fds fd user target ss room (suc base) (omega arith))
    ])
