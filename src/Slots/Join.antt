-- ===== src/Slots/Join.antt =====
-- chat_sessions_update_identity: the table that it leaves.
use esp32_web_chat.Common.{
  ℕ, zero, suc, ◌≤◌, ◌≡◌, ◌≢◌, refl, sym, subst, ap, ◌∙◌, ◌⊎◌, inl, inr, true, false, Option, some,
  [], ◌∷◌, Bytes, bytes_eq, bytes_eq_comm, bytes_eq_refl, is_empty, get_elem?, arith, Option-cases,
  length, take, modify,
}
use esp32_web_chat.Common.Int.{ℤ, eqb_ℤ, eqb_ℤ_comm, eqb_ℤ_refl}
use esp32_web_chat.Common.Scan.{
  Pointwise, modify-get, find_first, find_first-some, find_first-none, modify-some,
}
use esp32_web_chat.Config.{ClientSlot, max_user_id_len}
use esp32_web_chat.Slots.{
  Slots, is_open, has_open_fd, copy_bounded, mark_slot_closing, join_slot, is_stale, evict,
  check_identity, identity_ok,
}
use esp32_web_chat.Slots.Lookup.{Evicted, evict-get, evict-some}
use esp32_web_chat.Slots.WellFormed.{
  SlotOk, clash, IsWellFormed, Tame, Tame-refl, mark_slot_closing-Tame, clash-Tame, clash_comm,
  and-false, or-false,
}
use esp32_web_chat.Slots.Target.{Target, own, fresh}

take-of_le : (n : ℕ) (xs : Bytes) → length xs ≤ n → take n xs ≡ xs
take-of_le zero [] h = refl
take-of_le zero (x ∷ xs) h = absurd (omega arith)
take-of_le (suc n) [] h = refl
take-of_le (suc n) (x ∷ xs) h = ap (◌∷◌ x) (take-of_le n xs (omega arith))

other_open :
    (fd : ℤ) (s x : ClientSlot)
    → has_open_fd fd x ≡ true
    → clash s x ≡ false
    → has_open_fd fd s ≡ false
other_open fd s x h c = ground arith

open_ne :
    (fd : ℤ) (s : ClientSlot) → is_open s ≡ true → has_open_fd fd s ≡ false → eqb_ℤ s.fd fd ≡ false
open_ne fd s o h = rw o at h

marked_closed :
    (u : Bytes) (k i : ℕ) (s : ClientSlot)
    → is_stale u k i s ≡ true
    → ((mark_slot_closing s).1.joined ≡ false) × (is_open (mark_slot_closing s).1 ≡ false)
unfolding is_stale mark_slot_closing
marked_closed u k i s h = ground arith

closed_lem : (fd : ℤ) (s : ClientSlot) → is_open s ≡ false → has_open_fd fd s ≡ false
closed_lem fd s h = rw h

-- A slot that is left alone does not hold the user.
user_of_not_stale :
    (u : Bytes) (k i : ℕ) (s : ClientSlot)
    → i ≢ k
    → SlotOk s
    → is_stale u k i s ≡ false
    → s.joined ≡ true
    → bytes_eq u s.user_id ≡ false
unfolding is_stale
user_of_not_stale u k i s ne ok h j = ground (arith, bytes_eq_comm u s.user_id)

not_stale : (u : Bytes) (k i : ℕ) (s : ClientSlot) → i ≡ k → is_stale u k i s ≡ false
unfolding is_stale
not_stale u k i s e = ground arith

own_kept : (u : Bytes) (k i : ℕ) (s s' : ClientSlot) → i ≡ k → Evicted u k i s s' → s' ≡ s
own_kept u k i s s' e (inl (h, q)) = q
own_kept u k i s s' e (inr (h, q)) = cc (h, not_stale u k i s e)

user_shared :
    {u : Bytes} (s t : ClientSlot)
    → s.joined ≡ true
    → t.joined ≡ true
    → s.user_id ≡ u
    → t.user_id ≡ u
    → clash s t ≡ true
user_shared {u} s t a b c d = rw (a, b, c, d, bytes_eq_refl u)

-- One connection joins as the user `u`, whose id is one that the protocol lets through.
module _ (now fd : ℤ) (u : Bytes) (name : Option Bytes) (ss : Slots) (named : is_empty u ≡ false)
    (short : length u ≤ max_user_id_len) (w : IsWellFormed ss) where
  unfoldable pub joiner : ClientSlot → ClientSlot
  joiner = join_slot now fd (some u) name

  pub user_id-joiner : (s : ClientSlot) → (joiner s).user_id ≡ u
  unfolding joiner join_slot copy_bounded
  user_id-joiner s = take-of_le max_user_id_len u short

  pub joiner_fields :
      (s : ClientSlot)
      → ((joiner s).fd ≡ fd)
        × (is_open (joiner s) ≡ true)
        × ((joiner s).joined ≡ true)
        × ((joiner s).closing ≡ false)
  unfolding joiner join_slot
  joiner_fields s = (refl, refl, refl, refl)

  joiner_open : (s : ClientSlot) → has_open_fd fd (joiner s) ≡ true
  joiner_open s = let (a, b, c, d) = joiner_fields s in rw (b, a) (eqb_ℤ_refl fd)

  joiner-SlotOk : (s : ClientSlot) → SlotOk (joiner s)
  joiner-SlotOk s =
      let (a, b, c, d) = joiner_fields s in
      record {
        joined_open = λ h. b;
        joined_named = rw (user_id-joiner s, c) named;
        closing_active = λ h. cc (d, h);
      }

  -- No slot but the target is an open one of this connection.
  not_open :
      (k i : ℕ) (s : ClientSlot)
      → Target fd ss k
      → i ≢ k
      → get_elem? ss i ≡ some s
      → has_open_fd fd s ≡ false
  not_open k i s (own x g h) ne e = other_open fd s x h (w.apart i k s x ne e g)
  not_open k i s (fresh x g h none_open) ne e = none_open i s e

  apart_joiner :
      (x s : ClientSlot)
      → (s.joined ≡ true → bytes_eq u s.user_id ≡ false)
      → has_open_fd fd s ≡ false
      → clash (joiner x) s ≡ false
  apart_joiner x s h k =
      let (a, b, c, d) = joiner_fields x in
      let e = user_id-joiner x in
      or-false _ _
        (and-false (joiner x).joined s.joined (bytes_eq (joiner x).user_id s.user_id)
          (λ _ j. rw e (h j)))
        (and-false (is_open (joiner x)) (is_open s) (eqb_ℤ (joiner x).fd s.fd)
          (λ _ o. rw a (eqb_ℤ_comm fd s.fd ∙ open_ne fd s o k)))

  marked_apart :
      (x s : ClientSlot)
      → ((mark_slot_closing s).1.joined ≡ false) × (is_open (mark_slot_closing s).1 ≡ false)
      → clash (joiner x) (mark_slot_closing s).1 ≡ false
  marked_apart x s h =
      apart_joiner x (mark_slot_closing s).1 (λ j. cc (j, h.0))
        (closed_lem fd (mark_slot_closing s).1 h.1)

  -- What stands at an index after a successful join.
  abbrev pub Joined : ℕ → ℕ → ClientSlot → ClientSlot → Type 0
  Joined k i s s' =
      ((i ≡ k) × (s' ≡ joiner s))
      ⊎ ((i ≢ k) × Tame s s' × ((x : ClientSlot) → clash (joiner x) s' ≡ false))

  others :
      (k i : ℕ) (s s' : ClientSlot)
      → Target fd ss k
      → i ≢ k
      → get_elem? ss i ≡ some s
      → Evicted u k i s s'
      → Tame s s' × ((x : ClientSlot) → clash (joiner x) s' ≡ false)
  others k i s s' t ne g (inl (h, e)) = (
    Tame-refl s s' e,
    λ x.
        rw e (
          apart_joiner x s (user_of_not_stale u k i s ne (w.each i s g) h) (not_open k i s t ne g)),
  )
  others k i s s' t ne g (inr (h, e)) =
      (rw e (mark_slot_closing-Tame s), λ x. rw e (marked_apart x s (marked_closed u k i s h)))

  -- The table after the target is filled and the user's other sessions are marked.
  abbrev pub evicted : ℕ → ℕ → Slots
  evicted k room = (evict fd u k (modify ss k joiner) room 0).1

  pub evicted-get : (k room : ℕ) → Target fd ss k → Pointwise (Joined k) ss (evicted k room)
  evicted-get k room t i s' e =
      let (s1, e1, q) = evict-get fd u k (modify ss k joiner) room 0 i s' e in
      let (s, g, r) = modify-get ss k joiner i s1 e1 in
      let q' : Evicted u k i s1 s' = subst (λ n. Evicted u k n s1 s') (omega arith) q in
      (
        s,
        g,
        elim r [
          | inl (a, b) ↦ inl (a, own_kept u k i s1 s' a q' ∙ b)
          | inr (a, b) ↦
              (let o = others k i s s' t a g (subst (λ x. Evicted u k i x s') b q') in
                inr (a, o.0, o.1))
        ],
      )

  pub evicted-IsWellFormed : (k room : ℕ) → Target fd ss k → IsWellFormed (evicted k room)
  evicted-IsWellFormed k room t = record {
    each = λ i s' e.
        let (s, g, q) = evicted-get k room t i s' e in
        elim q [ inl (a, b) ↦ rw b (joiner-SlotOk s) | inr (a, b, c) ↦ b.ok (w.each i s g) ];
    apart = λ i j s' t' ne e f.
        let (s, g, q) = evicted-get k room t i s' e in
        let (t, g', q') = evicted-get k room t j t' f in pair i j s t s' t' ne g g' q q';
  }
    where
      pair :
          (i j : ℕ) (s t s' t' : ClientSlot)
          → i ≢ j
          → get_elem? ss i ≡ some s
          → get_elem? ss j ≡ some t
          → Joined k i s s'
          → Joined k j t t'
          → clash s' t' ≡ false
      pair i j s t s' t' ne g g' (inl (a, b)) (inl (c, d)) = absurd (ne (a ∙ sym c))
      pair i j s t s' t' ne g g' (inl (a, b)) (inr (c, d, h)) = rw b (h s)
      pair i j s t s' t' ne g g' (inr (a, b, h)) (inl (c, d)) =
          rw d (clash_comm s' (joiner t) ∙ h t)
      pair i j s t s' t' ne g g' (inr (a, b, h)) (inr (c, d, h')) =
          clash-Tame s t s' t' b d (w.apart i j s t ne g g')

  Target-slot : (k : ℕ) → Target fd ss k → (s : ClientSlot) × (get_elem? ss k ≡ some s)
  Target-slot k (own s g h) = (s, g)
  Target-slot k (fresh s g h n) = (s, g)

  -- The one open slot of the connection is the target, which holds the user.
  open_is_joiner :
      (k room i : ℕ) (s' : ClientSlot)
      → Target fd ss k
      → get_elem? (evicted k room) i ≡ some s'
      → has_open_fd fd s' ≡ true
      → (s : ClientSlot) × (s' ≡ joiner s)
  open_is_joiner k room i s' t e h =
      let (s, g, q) = evicted-get k room t i s' e in
      elim q [
        | inl (a, b) ↦ (s, b)
        | inr (a, b, c) ↦
            cc (h, other_open fd s' (joiner s) (joiner_open s) (clash_comm s' (joiner s) ∙ c s))
      ]

  found :
      (k room : ℕ)
      → Target fd ss k
      → (s : ClientSlot) × (find_first (has_open_fd fd) (evicted k room) ≡ some (joiner s))
  found k room t = elim (Option-cases (find_first (has_open_fd fd) (evicted k room))) [
    | inr (s', e) ↦
        let (i, g, h) = find_first-some _ _ s' e in
        let (s, q) = open_is_joiner k room i s' t g h in (s, e ∙ ap some q)
    | inl e ↦
        let (s, g) = Target-slot k t in
        let (s', g') =
          evict-some fd u k (modify ss k joiner) room 0 k (joiner s) (modify-some ss k joiner g) in
        let (x, gx, q) = evicted-get k room t k s' g' in
        elim q [
          | inl (a, b) ↦ cc (find_first-none _ _ e k s' g', ap (has_open_fd fd) b, joiner_open x)
          | inr (a, b, c) ↦ absurd (a refl)
        ]
  ]

  -- After a join the connection passes the identity check of its user.
  pub joined_identity :
      (k room : ℕ) → Target fd ss k → check_identity fd (some u) (evicted k room) ≡ identity_ok
  unfolding check_identity
  joined_identity k room t =
      let (s, e) = found k room t in
      let (a, b, c, d) = joiner_fields s in
      rw (e, check_identity, c, user_id-joiner s, named, bytes_eq_refl u)

  -- Who holds the user holds it through this connection.
  pub holder_fd :
      (k room i : ℕ) (s' : ClientSlot)
      → Target fd ss k
      → get_elem? (evicted k room) i ≡ some s'
      → s'.joined ≡ true
      → s'.user_id ≡ u
      → s'.fd ≡ fd
  holder_fd k room i s' t e j r =
      let (s, g, q) = evicted-get k room t i s' e in
      elim q [
        | inl (a, b) ↦ rw b ((joiner_fields s).0)
        | inr (a, b, c) ↦
            let (x, y, z, v) = joiner_fields s in
            cc (user_shared (joiner s) s' z j (user_id-joiner s) r, c s)
      ]
