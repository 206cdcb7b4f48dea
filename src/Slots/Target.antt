-- ===== src/Slots/Target.antt =====
-- The first loop of chat_sessions_update_identity: the slot that a joining connection takes.
use mathlib.Core.Option.{some-injective}
use esp32_web_chat.Common.{
  ℕ, zero, suc, ◌+◌, ◌≡◌, refl, sym, subst, ap, ◌∙◌, ◌⊎◌, inl, inr, true, false, ◌&&◌, Option, none,
  some, [], ◌∷◌, is_none, get_elem?, arith, Bool-cases, if◌then◌else◌,
}
use esp32_web_chat.Common.Int.{ℤ}
use esp32_web_chat.Config.{ClientSlot}
use esp32_web_chat.Slots.{Slots, has_open_fd, is_free, scan_slots, pick_target}

-- Of an open slot of the connection the scan keeps the last one, and if there is none the table
-- has none.
scan-own :
    (fd : ℤ) (i : ℕ) (free own : Option ℕ) (ss : Slots)
    → (((scan_slots fd i free own ss).1 ≡ own)
        × ((j : ℕ) (s : ClientSlot) → get_elem? ss j ≡ some s → has_open_fd fd s ≡ false))
      ⊎ ((j : ℕ) × (s : ClientSlot) × (get_elem? ss j ≡ some s)
          × (has_open_fd fd s ≡ true)
          × ((scan_slots fd i free own ss).1 ≡ some (i + j)))
unfolding scan_slots
scan-own fd i free own [] = inl (refl, λ j s e. cc)
scan-own fd i free own (s ∷ ss) =
    elim (scan-own fd (suc i)
      (if has_open_fd fd s then free else if is_free s && is_none free then some i else free)
      (if has_open_fd fd s then some i else own) ss) [
        | inr (j, t, g, h, e) ↦ inr (suc j, t, g, h, e ∙ ap some (omega arith))
        | inl (e, h) ↦ elim (Bool-cases (has_open_fd fd s)) [
          | inl y ↦ inr (0, s, refl, y, e ∙ rw y (ap some (omega arith)))
          | inr n ↦ inl (
            e ∙ rw n,
            elim [
              | zero ↦ λ t g. subst (λ u. has_open_fd fd u ≡ false) (some-injective _ _ g) n
              | suc j ↦ h j
            ],
          )
        ]
      ]

scan-free :
    (fd : ℤ) (i : ℕ) (free own : Option ℕ) (ss : Slots)
    → ((scan_slots fd i free own ss).0 ≡ free)
      ⊎ ((j : ℕ) × (s : ClientSlot) × (get_elem? ss j ≡ some s)
          × (is_free s ≡ true)
          × ((scan_slots fd i free own ss).0 ≡ some (i + j)))
unfolding scan_slots
scan-free fd i free own [] = inl refl
scan-free fd i free own (s ∷ ss) =
    elim (scan-free fd (suc i)
      (if has_open_fd fd s then free else if is_free s && is_none free then some i else free)
      (if has_open_fd fd s then some i else own) ss) [
        | inr (j, t, g, h, e) ↦ inr (suc j, t, g, h, e ∙ ap some (omega arith))
        | inl e ↦ elim (Bool-cases (has_open_fd fd s)) [
          | inl y ↦ inl (e ∙ rw y)
          | inr n ↦ elim (Bool-cases (is_free s && is_none free)) [
            | inl y ↦ inr (0, s, refl, ground arith, e ∙ rw (n, y) (ap some (omega arith)))
            | inr m ↦ inl (e ∙ rw (n, m))
          ]
        ]
      ]

-- The slot that a joining connection takes: its own open one, or a free one if it has none.
pub data Target (fd : ℤ) (ss : Slots) (k : ℕ) : Type 0 where
  own : (s : ClientSlot) → get_elem? ss k ≡ some s → has_open_fd fd s ≡ true → Target fd ss k
  fresh :
      (s : ClientSlot)
      → get_elem? ss k ≡ some s
      → is_free s ≡ true
      → ((j : ℕ) (t : ClientSlot) → get_elem? ss j ≡ some t → has_open_fd fd t ≡ false)
      → Target fd ss k

pick_target-own : (r : Option ℕ × Option ℕ) (n : ℕ) → r.1 ≡ some n → pick_target r ≡ some n
pick_target-own (free, none) n e = cc
pick_target-own (free, some m) n e = e

pick_target-free : (r : Option ℕ × Option ℕ) → r.1 ≡ none → pick_target r ≡ r.0
pick_target-free (free, none) e = refl
pick_target-free (free, some m) e = cc

pub pick_target-Target :
    (fd : ℤ) (ss : Slots) (k : ℕ)
    → pick_target (scan_slots fd 0 none none ss) ≡ some k
    → Target fd ss k
pick_target-Target fd ss k e = elim (scan-own fd 0 none none ss) [
  | inr (j, s, g, h, q) ↦
      own s
        (subst (λ n. get_elem? ss n ≡ some s)
          (some-injective _ _ (ap some (omega arith) ∙ sym (pick_target-own _ _ q) ∙ e)) g)
        h
  | inl (q, h) ↦ elim (scan-free fd 0 none none ss) [
    | inr (j, s, g, f, r) ↦
        fresh s
          (subst (λ n. get_elem? ss n ≡ some s)
            (some-injective _ _ (ap some (omega arith) ∙ sym r ∙ sym (pick_target-free _ q) ∙ e)) g)
          f h
    | inl r ↦ cc (sym (pick_target-free _ q) ∙ e, r)
  ]
]
