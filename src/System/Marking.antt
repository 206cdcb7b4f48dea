-- ===== src/System/Marking.antt =====
-- What closing a client (main/src/server/websocket_server.c) makes of the slots of the table.
use esp32_web_chat.Common.{
  ℕ, ◌≡◌, refl, sym, subst, ◌⊎◌, inl, inr, Bool, true, false, not, some, get_elem?, arith,
  Bool-cases, if◌then◌else◌,
}
use esp32_web_chat.Common.Int.{ℤ, pos, ltb_ℤ}
use esp32_web_chat.Common.Scan.{update_all-at}
use esp32_web_chat.Config.{ClientSlot}
use esp32_web_chat.Slots
use esp32_web_chat.Slots.{Slots, is_open, has_fd, mark_slot_closing, clear_slot_identity}
use esp32_web_chat.Platform.{
  Platform, World, client_mutex, ◌>>=◌, ◌>>◌, done, call, tell, get_ctx, put_ctx, locked,
}
use esp32_web_chat.Platform.Keeps.{branch}
use esp32_web_chat.Platform.Rules.{Keeps, Keeps-locked}
use esp32_web_chat.Sessions.{on_table, mark_closing, remove_by_fd}
use esp32_web_chat.Server.{close_client}
use esp32_web_chat.System.Sends.{after_marking-Keeps}
use esp32_web_chat.System.Attempts.{Waits}

-- The slot holds no user, and is marked as closing, or it is free already.
abbrev pub IsGone : ClientSlot → Type 0
IsGone s = (s.joined ≡ false) × ((s.closing ≡ true) ⊎ (s.active ≡ false))

-- The slot at an index has the property.
abbrev pub Now : ℕ → (ClientSlot → Type 0) → Slots → Type 0
Now i Q ss = (s : ClientSlot) × (get_elem? ss i ≡ some s) × Q s

module _ (p : Platform) (fd : ℤ) (i : ℕ) (Q : ClientSlot → Type 0) where
  open p use {Env}

  -- What a change does to the slots of a connection, for a property that it keeps.
  on_table-Now :
      (g : Slots → Bool × Slots) (f : ClientSlot → ClientSlot)
      → ((ss : Slots) (s : ClientSlot)
          → get_elem? ss i ≡ some s
          → get_elem? (g ss).1 i ≡ some (if has_fd fd s then f s else s))
      → ((s : ClientSlot) → Q s → Q (if has_fd fd s then f s else s))
      → Keeps (λ c. Now i Q c.client_slots) (locked p client_mutex false (on_table p g))
  unfolding ◌>>=◌ ◌>>◌ get_ctx put_ctx done
  on_table-Now g f e k =
      Keeps-locked p _ _ _
        (record { at = λ w h. let (s, q, h') = h in (_, e w.ctx.client_slots s q, k s h') })

  mark_closing-at :
      (ss : Slots) (s : ClientSlot)
      → get_elem? ss i ≡ some s
      → get_elem? (Slots.mark_closing fd ss).1 i
        ≡ some (if has_fd fd s then (mark_slot_closing s).1 else s)
  unfolding Slots.mark_closing
  mark_closing-at ss s e = update_all-at (has_fd fd) _ ss i s e

  remove_by_fd-at :
      (ss : Slots) (s : ClientSlot)
      → get_elem? ss i ≡ some s
      → get_elem? (Slots.remove_by_fd fd ss).1 i
        ≡ some (if has_fd fd s then clear_slot_identity s else s)
  unfolding Slots.remove_by_fd
  remove_by_fd-at ss s e = update_all-at (has_fd fd) _ ss i s e

  module _ (waits : Waits p)
      (mark : (s : ClientSlot) → Q s → Q (if has_fd fd s then (mark_slot_closing s).1 else s))
      (clear : (s : ClientSlot) → Q s → Q (if has_fd fd s then clear_slot_identity s else s)) where
    marks : Keeps (λ c. Now i Q c.client_slots) (mark_closing p fd)
    unfolding mark_closing
    marks = on_table-Now _ _ mark_closing-at mark

    removes : Keeps (λ c. Now i Q c.client_slots) (remove_by_fd p fd)
    unfolding remove_by_fd
    removes = on_table-Now _ _ remove_by_fd-at clear

    marked :
        (s : ClientSlot) (w : World Env)
        → get_elem? w.ctx.client_slots i ≡ some s
        → Q (if has_fd fd s then (mark_slot_closing s).1 else s)
        → Now i Q (mark_closing p fd w).1.ctx.client_slots
    unfolding mark_closing locked ◌>>=◌ ◌>>◌ get_ctx put_ctx done call tell
    marked s w e q =
        branch (λ (r : Bool × World Env). Now i Q r.1.ctx.client_slots)
          (p.take client_mutex w.env).0 _ _ _ (λ f. absurd (ground (arith, waits.takes w.env)))
          (λ t. (_, mark_closing-at w.ctx.client_slots s e, q))

    closed_slot :
        (s : ClientSlot) (w : World Env)
        → ltb_ℤ fd (pos 0) ≡ false
        → get_elem? w.ctx.client_slots i ≡ some s
        → Q (if has_fd fd s then (mark_slot_closing s).1 else s)
        → Now i Q (close_client p fd w).1.ctx.client_slots
    unfolding close_client ◌>>=◌
    closed_slot s w low e q =
        branch (λ (r : Unit {0} × World Env). Now i Q r.1.ctx.client_slots) (ltb_ℤ fd (pos 0)) _ _ _
          (λ f. (after_marking-Keeps p fd marks removes).at _ (marked s w e q))
          (λ t. absurd (ground arith))

-- Closing a connection leaves the slots of others alone, and its own are gone.
abbrev pub Closes : ℤ → Slots → Slots → Type 0
Closes fd before after =
    (i : ℕ) (s : ClientSlot)
    → get_elem? before i ≡ some s
    → Now i
        (λ s'.
          (has_fd fd s ≡ false → s' ≡ s)
          × (has_fd fd s ≡ true → IsGone s')
          × (IsGone s → IsGone s'))
        after

inactive_same : (s : ClientSlot) → s.active ≡ false → (mark_slot_closing s).1 ≡ s
unfolding mark_slot_closing
inactive_same s a = of_flag _ s.active a
  where
    of_flag :
        (x : Bool × ClientSlot) (b : Bool) → b ≡ false → (if not b then (false, s) else x).1 ≡ s
    of_flag x true q = absurd (ground (arith, q))
    of_flag x false q = refl

mark-IsGone :
    (b : Bool) (s : ClientSlot) → IsGone s → IsGone (if b then (mark_slot_closing s).1 else s)
unfolding mark_slot_closing
mark-IsGone false s h = h
mark-IsGone true s h = elim (Bool-cases s.active) [
  | inl a ↦ rw a (refl, inl refl)
  | inr a ↦ subst IsGone (sym (inactive_same s a)) h
]

clear-IsGone :
    (b : Bool) (s : ClientSlot) → IsGone s → IsGone (if b then clear_slot_identity s else s)
unfolding clear_slot_identity
clear-IsGone false s h = h
clear-IsGone true s h = (refl, inr refl)

own-IsGone :
    (fd : ℤ) (s : ClientSlot)
    → has_fd fd s ≡ true
    → IsGone (if has_fd fd s then (mark_slot_closing s).1 else s)
unfolding mark_slot_closing
own-IsGone fd s h = let a : s.active ≡ true = ground (arith, h) in rw (h, a) (refl, inl refl)

other_same :
    (fd : ℤ) (f : ClientSlot → ClientSlot) (s x : ClientSlot)
    → has_fd fd s ≡ false
    → x ≡ s
    → (if has_fd fd x then f x else x) ≡ s
other_same fd f s x h q =
    subst (λ (y : ClientSlot). (if has_fd fd y then f y else y) ≡ s) (sym q) (rw h refl)

module _ (p : Platform) (waits : Waits p) where
  open p use {Env}

  pub close_client-Closes :
      (fd : ℤ) (w : World Env)
      → ltb_ℤ fd (pos 0) ≡ false
      → Closes fd w.ctx.client_slots (close_client p fd w).1.ctx.client_slots
  close_client-Closes fd w low i s e = elim (Bool-cases (has_fd fd s)) [
    | inl t ↦
        let (s', g, gone) =
          closed_slot p fd i IsGone waits (λ x. mark-IsGone (has_fd fd x) x)
            (λ x. clear-IsGone (has_fd fd x) x) s w low e (own-IsGone fd s t) in
        (s', g, ((λ f. absurd (ground (arith, t, f))), (λ t'. gone), (λ h. gone)))
    | inr f ↦
        let (s', g, same) =
          closed_slot p fd i (λ x. x ≡ s) waits
            (λ x. other_same fd (λ y. (mark_slot_closing y).1) s x f)
            (λ x. other_same fd clear_slot_identity s x f) s w low e
            (other_same fd (λ y. (mark_slot_closing y).1) s s f refl) in
        (
          s',
          g,
          ((λ f'. same), (λ t. absurd (ground (arith, t, f))), (λ h. subst IsGone (sym same) h)),
        )
  ]
