-- ===== src/Slots/WellFormed.antt =====
-- The invariant of the client table, and the operations other than joining that keep it.
use esp32_web_chat.Common.{
  ℕ, ◌≡◌, ◌≢◌, refl, sym, subst, ap, inl, inr, Bool, true, false, not, ◌&&◌, ◌||◌, some, bytes_eq,
  is_empty, get_elem?, arith, Bool-cases, Option-cases, modify, ◌∙◌, bytes_eq_comm,
}
use mathlib.Core.Path.{ap₂}
use esp32_web_chat.Common.Int.{ℤ, eqb_ℤ, eqb_ℤ_comm}
use esp32_web_chat.Common.Scan.{
  Pointwise, update_first, update_all, find_first, update_first-get, update_all-get,
  find_first-none, modify-get, update_first-modify, At,
}
use esp32_web_chat.Config.{ClientSlot}
use esp32_web_chat.Slots.{
  Slots, is_open, has_fd, is_free, clear_slot_identity, mark_slot_closing, set_time_offset,
  mark_alive, mark_closing, remove_by_fd, register_slot, ensure_slot,
}

-- A slot by itself: a joined client is on an open connection, and has a user id exactly if it
-- has joined; a connection being closed still holds its slot.
pub record SlotOk (s : ClientSlot) : Type 0 where
  pub joined_open : s.joined ≡ true → is_open s ≡ true
  pub joined_named : is_empty s.user_id ≡ not s.joined
  pub closing_active : s.closing ≡ true → s.active ≡ true

-- Two slots must not hold one user, nor one open connection.
abbrev pub share_user : ClientSlot → ClientSlot → Bool
share_user s t = s.joined && t.joined && bytes_eq s.user_id t.user_id

abbrev pub share_fd : ClientSlot → ClientSlot → Bool
share_fd s t = is_open s && is_open t && eqb_ℤ s.fd t.fd

abbrev pub clash : ClientSlot → ClientSlot → Bool
clash s t = share_user s t || share_fd s t

pub record IsWellFormed (ss : Slots) : Type 0 where
  pub each : (i : ℕ) (s : ClientSlot) → get_elem? ss i ≡ some s → SlotOk s
  pub apart :
      (i j : ℕ) (s t : ClientSlot)
      → i ≢ j
      → get_elem? ss i ≡ some s
      → get_elem? ss j ≡ some t
      → clash s t ≡ false

-- A change of a slot that takes on no user and no connection.
pub record Tame (s s' : ClientSlot) : Type 0 where
  pub ok : SlotOk s → SlotOk s'
  pub same_user_id : s'.joined ≡ true → (s.joined ≡ true) × (s'.user_id ≡ s.user_id)
  pub same_fd : is_open s' ≡ true → (is_open s ≡ true) × (s'.fd ≡ s.fd)

pub Tame-refl : (s s' : ClientSlot) → s' ≡ s → Tame s s'
Tame-refl s s' e =
    subst (Tame s) (sym e)
      (record { ok = λ h. h; same_user_id = λ h. (h, refl); same_fd = λ h. (h, refl) })

pub and-false : (a b c : Bool) → (a ≡ true → b ≡ true → c ≡ false) → (a && b && c) ≡ false
and-false true true c h = h refl refl
and-false true false c h = refl
and-false false b c h = refl

pub or-false : (a b : Bool) → a ≡ false → b ≡ false → (a || b) ≡ false
or-false a b h k = ground arith

module _ (s t s' t' : ClientSlot) (p : Tame s s') (q : Tame t t') where
  share_user-Tame : share_user s t ≡ false → share_user s' t' ≡ false
  share_user-Tame h = and-false s'.joined t'.joined _ λ a b.
      let (c, e) = p.same_user_id a in let (d, f) = q.same_user_id b in rw (e, f) (rw (c, d) at h)

  share_fd-Tame : share_fd s t ≡ false → share_fd s' t' ≡ false
  share_fd-Tame h =
      and-false (is_open s') (is_open t') _
        λ a b. let (c, e) = p.same_fd a in let (d, f) = q.same_fd b in rw (e, f) (rw (c, d) at h)

  pub clash-Tame : clash s t ≡ false → clash s' t' ≡ false
  clash-Tame h = or-false _ _ (share_user-Tame (ground arith)) (share_fd-Tame (ground arith))

-- Tame changes at each index keep the table well formed.
pub Tame-IsWellFormed :
    (ss ss' : Slots) → Pointwise (λ i. Tame) ss ss' → IsWellFormed ss → IsWellFormed ss'
Tame-IsWellFormed ss ss' step w = record {
  each = λ i s' e. let (s, g, q) = step i s' e in q.ok (w.each i s g);
  apart = λ i j s' t' ne e f.
      let (s, g, q) = step i s' e in
      let (t, k, r) = step j t' f in clash-Tame s t s' t' q r (w.apart i j s t ne g k);
}

pub mark_slot_closing-Tame : (s : ClientSlot) → Tame s (mark_slot_closing s).1
unfolding mark_slot_closing
mark_slot_closing-Tame s = elim (Bool-cases s.active) [
  | inl h ↦ record {
    ok = λ k. rw h (ground arith);
    same_user_id = λ k. ground arith;
    same_fd = λ k. ground arith;
  }
  | inr h ↦ Tame-refl s _ (rw h)
]

pub clear_slot_identity-Tame : (s : ClientSlot) → Tame s (clear_slot_identity s)
unfolding clear_slot_identity
clear_slot_identity-Tame s = record {
  ok = λ h. ground arith;
  same_user_id = λ h. ground arith;
  same_fd = λ h. ground arith;
}

module _ (p : ClientSlot → Bool) (f : ClientSlot → ClientSlot)
    (tame : (s : ClientSlot) → Tame s (f s)) where
  update_all-IsWellFormed : (ss : Slots) → IsWellFormed ss → IsWellFormed (update_all p f ss)
  update_all-IsWellFormed ss = Tame-IsWellFormed ss _ λ i s' e.
      let (s, g, q) = update_all-get p f ss i s' e in
      (
        s,
        g,
        elim q [ inl (h, r) ↦ Tame-refl s s' r | inr (h, r) ↦ subst (Tame s) (sym r) (tame s) ],
      )

  update_first-IsWellFormed : (ss : Slots) → IsWellFormed ss → IsWellFormed (update_first p f ss)
  update_first-IsWellFormed ss = Tame-IsWellFormed ss _ λ i s' e.
      let (s, g, q) = update_first-get p f ss i s' e in
      (s, g, elim q [ inl r ↦ Tame-refl s s' r | inr (h, r) ↦ subst (Tame s) (sym r) (tame s) ])

pub set_time_offset-IsWellFormed :
    (fd offset : ℤ) (ss : Slots) → IsWellFormed ss → IsWellFormed (set_time_offset fd offset ss)
unfolding set_time_offset
set_time_offset-IsWellFormed fd offset = update_first-IsWellFormed _ _ (λ s. record {
  ok = λ h. record {
    joined_open = h.joined_open;
    joined_named = h.joined_named;
    closing_active = h.closing_active;
  };
  same_user_id = λ h. (h, refl);
  same_fd = λ h. (h, refl);
})

abbrev revive : ClientSlot → ClientSlot
revive s = record s { is_alive = true }

revive-Tame : (s : ClientSlot) → Tame s (revive s)
revive-Tame s = record {
  ok = λ h. record {
    joined_open = h.joined_open;
    joined_named = h.joined_named;
    closing_active = h.closing_active;
  };
  same_user_id = λ h. (h, refl);
  same_fd = λ h. (h, refl);
}

pub mark_alive-IsWellFormed :
    (fd : ℤ) (ss : Slots) → IsWellFormed ss → IsWellFormed (mark_alive fd ss).1
unfolding mark_alive
mark_alive-IsWellFormed fd = update_first-IsWellFormed _ revive revive-Tame

-- Marking a connection as closing keeps a well-formed client table well formed.
pub mark_closing-IsWellFormed :
    (fd : ℤ) (ss : Slots) → IsWellFormed ss → IsWellFormed (mark_closing fd ss).1
unfolding mark_closing
mark_closing-IsWellFormed fd =
    update_all-IsWellFormed _ (λ s. (mark_slot_closing s).1) mark_slot_closing-Tame

-- Removing a connection keeps a well-formed client table well formed.
pub remove_by_fd-IsWellFormed :
    (fd : ℤ) (ss : Slots) → IsWellFormed ss → IsWellFormed (remove_by_fd fd ss).1
unfolding remove_by_fd
remove_by_fd-IsWellFormed fd =
    update_all-IsWellFormed _ clear_slot_identity clear_slot_identity-Tame

and_left_comm : (a b c : Bool) → (a && b && c) ≡ (b && a && c)
and_left_comm true true c = refl
and_left_comm true false c = refl
and_left_comm false true c = refl
and_left_comm false false c = refl

pub clash_comm : (s t : ClientSlot) → clash s t ≡ clash t s
clash_comm s t =
    ap₂ ◌||◌
      (and_left_comm s.joined t.joined _
        ∙ ap (λ c. t.joined && s.joined && c) (bytes_eq_comm s.user_id t.user_id))
      (and_left_comm (is_open s) (is_open t) _
        ∙ ap (λ c. is_open t && is_open s && c) (eqb_ℤ_comm s.fd t.fd))

-- A slot may take on a user and a connection that no other slot holds.
pub modify-IsWellFormed :
    (ss : Slots) (k : ℕ) (f : ClientSlot → ClientSlot)
    → ((s : ClientSlot) → get_elem? ss k ≡ some s → SlotOk (f s))
    → ((j : ℕ) (s t : ClientSlot)
        → j ≢ k
        → get_elem? ss k ≡ some s
        → get_elem? ss j ≡ some t
        → clash (f s) t ≡ false)
    → IsWellFormed ss
    → IsWellFormed (modify ss k f)
modify-IsWellFormed ss k f ok free w = record {
  each = λ i s' e.
      let (s, g, q) = modify-get ss k f i s' e in
      elim q [
        | inl (r, h) ↦ subst SlotOk (sym h) (ok s (subst (λ n. get_elem? ss n ≡ some s) r g))
        | inr (r, h) ↦ subst SlotOk (sym h) (w.each i s g)
      ];
  apart = λ i j s' t' ne e f'.
      let (s, g, q) = modify-get ss k f i s' e in
      let (t, g', q') = modify-get ss k f j t' f' in pair i j s t s' t' ne g g' q q';
}
  where
    pair :
        (i j : ℕ) (s t s' t' : ClientSlot)
        → i ≢ j
        → get_elem? ss i ≡ some s
        → get_elem? ss j ≡ some t
        → At k f i s s'
        → At k f j t t'
        → clash s' t' ≡ false
    pair i j s t s' t' ne g g' (inl (a, b)) (inl (c, d)) = absurd (ne (a ∙ sym c))
    pair i j s t s' t' ne g g' (inl (a, b)) (inr (c, d)) =
        rw (b, d) (free j s t c (subst (λ n. get_elem? ss n ≡ some s) a g) g')
    pair i j s t s' t' ne g g' (inr (a, b)) (inl (c, d)) =
        rw (b, d) (clash_comm s (f t) ∙ free i t s a (subst (λ n. get_elem? ss n ≡ some t) c g') g)
    pair i j s t s' t' ne g g' (inr (a, b)) (inr (c, d)) = rw (b, d) (w.apart i j s t ne g g')

register_slot-SlotOk : (fd now : ℤ) (s : ClientSlot) → SlotOk (register_slot fd now s)
unfolding register_slot
register_slot-SlotOk fd now s = ground arith

register_slot-free :
    (fd now : ℤ) (s t : ClientSlot) → has_fd fd t ≡ false → clash (register_slot fd now s) t ≡ false
unfolding register_slot
register_slot-free fd now s t h = ground arith

-- Registering a connection keeps a well-formed client table well formed.
pub ensure_slot-IsWellFormed :
    (fd now : ℤ) (ss : Slots) → IsWellFormed ss → IsWellFormed (ensure_slot fd now ss).1
unfolding ensure_slot
ensure_slot-IsWellFormed fd now ss w = elim (Option-cases (find_first (has_fd fd) ss)) [
  | inl h ↦
      rw (h, ensure_slot)
        (elim (update_first-modify is_free (register_slot fd now) ss) [
          | inl e ↦ rw e w
          | inr (k, s, g, p, e) ↦ rw e (
              modify-IsWellFormed ss k (register_slot fd now) (λ s _. register_slot-SlotOk fd now s)
                (λ j s t ne e e'.
                  register_slot-free fd now s t (find_first-none (has_fd fd) ss h j t e'))
                w)
        ])
  | inr (s, h) ↦
      rw (h, ensure_slot)
        (elim (Bool-cases s.closing) [
          | inl c ↦ rw c w
          | inr c ↦ rw c (update_first-IsWellFormed _ revive revive-Tame ss w)
        ])
]
