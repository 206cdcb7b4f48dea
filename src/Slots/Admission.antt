-- ===== src/Slots/Admission.antt =====
-- When chat_sessions_ensure_slot of main/src/chat/sessions.c gives a connection a slot.
use mathlib.Core.Option.{some-injective}
use esp32_web_chat.Common.{
  ap, ℕ, suc, ◌≡◌, refl, ◌⊎◌, inl, inr, Bool, true, false, none, some, List, [], ◌∷◌, get_elem?,
  modify, arith, Bool-cases, Option-cases,
}
use esp32_web_chat.Common.Int.{ℤ, eqb_ℤ→eq}
use esp32_web_chat.Common.Scan.{
  update_first, find_first, any_of, find_first-none, find_first-some, modify-some,
}
use esp32_web_chat.Config.{ClientSlot}
use esp32_web_chat.Slots.{Slots, has_fd, is_free, is_open, register_slot, ensure_slot}

-- One slot is the connection's: it was and is alive now, or it was free and is a new client's.
pub record Admits (fd : ℤ) (before after : Slots) : Type 0 where
  pub index : ℕ
  pub was : ClientSlot
  pub is_now : ClientSlot
  pub found : get_elem? before index ≡ some was
  pub written : get_elem? after index ≡ some is_now
  pub others : after ≡ modify before index (λ s. is_now)
  pub own : (is_open is_now ≡ true) × (is_now.fd ≡ fd) × (is_now.is_alive ≡ true)
  pub how :
      ((is_open was ≡ true) × (was.fd ≡ fd) × (is_now ≡ record was { is_alive = true }))
      ⊎ ((was.active ≡ false) × (is_now.joined ≡ false) × (is_now.user_id ≡ []))

-- The connection is being closed, or every slot is another connection's.
abbrev pub Refused : ℤ → Slots → Type 0
Refused fd ss =
    ((i : ℕ) × (s : ClientSlot) × (get_elem? ss i ≡ some s)
      × (has_fd fd s ≡ true)
      × (s.closing ≡ true))
    ⊎ ((i : ℕ) (s : ClientSlot)
        → get_elem? ss i ≡ some s
        → (s.active ≡ true) × (has_fd fd s ≡ false))

module _ {A : Type 0} (p : A → Bool) (f : A → A) where
  -- A search that fails writes nothing.
  miss : (xs : List A) → find_first p xs ≡ none → (any_of p xs ≡ false) × (update_first p f xs ≡ xs)
  unfolding any_of update_first find_first
  miss [] h = (refl, refl)
  miss (x ∷ xs) h = elim (Bool-cases (p x)) [
    | inl t ↦ absurd (ground (arith, t, h))
    | inr n ↦ let (a, e) = miss xs (rw (find_first, n) at h) in (rw (n, a) refl, rw (n, e) refl)
  ]

  -- A search that succeeds has a first hit, and the loop writes there.
  hit :
      (xs : List A) (x : A)
      → find_first p xs ≡ some x
      → (any_of p xs ≡ true)
        × (k : ℕ) × (get_elem? xs k ≡ some x)
        × (update_first p f xs ≡ modify xs k (λ y. f x))
  unfolding any_of update_first find_first
  hit [] x h = absurd (ground (arith, h))
  hit (y ∷ xs) x h = elim (Bool-cases (p y)) [
    | inl t ↦
        let q = some-injective _ _ (rw (find_first, t) at h) in
        (rw t refl, 0, ap some q, rw (t, q) refl)
    | inr n ↦
        let (a, k, g, e) = hit xs x (rw (find_first, n) at h) in
        (rw (n, a) refl, suc k, g, rw (n, e) refl)
  ]

abbrev pub Outcome : ℤ → Slots → Bool × Slots → Type 0
Outcome fd ss r = ((r.0 ≡ true) × Admits fd ss r.1) ⊎ ((r.0 ≡ false) × (r.1 ≡ ss) × Refused fd ss)

pub ensure_slot-Outcome : (fd now : ℤ) (ss : Slots) → Outcome fd ss (ensure_slot fd now ss)
unfolding ensure_slot register_slot
ensure_slot-Outcome fd now ss = elim (Option-cases (find_first (has_fd fd) ss)) [
  | inr (s, h) ↦ known s h (find_first-some (has_fd fd) ss s h) (Bool-cases s.closing)
  | inl h ↦ rw (ensure_slot, h) (unknown h)
]
  where
    known :
        (s : ClientSlot)
        → find_first (has_fd fd) ss ≡ some s
        → (i : ℕ) × (get_elem? ss i ≡ some s) × (has_fd fd s ≡ true)
        → (s.closing ≡ true) ⊎ (s.closing ≡ false)
        → Outcome fd ss (ensure_slot fd now ss)
    known s h (i, g, t) (inl c) = rw (ensure_slot, h, c) (inr (refl, refl, inl (i, s, g, t, c)))
    known s h (i, g, t) (inr c) =
        rw (ensure_slot, h, c)
          (let (a, k, at_k, e) = hit (has_fd fd) (λ t. record t { is_alive = true }) ss s h in
            inl (
              refl,
              record {
                index = k;
                was = s;
                is_now = record s { is_alive = true };
                found = at_k;
                written = rw e (modify-some ss k _ at_k);
                others = e;
                own = (ground arith, eqb_ℤ→eq s.fd fd (ground arith), refl);
                how = inl (ground arith, eqb_ℤ→eq s.fd fd (ground arith), refl);
              },
            ))

    unknown :
        find_first (has_fd fd) ss ≡ none
        → Outcome fd ss (any_of is_free ss, update_first is_free (register_slot fd now) ss)
    unknown h = elim (Option-cases (find_first is_free ss)) [
      | inl none_free ↦
          let (a, e) = miss is_free (register_slot fd now) ss none_free in
          inr (
            a,
            e,
            inr (λ i s g. (
              ground (arith, find_first-none is_free ss none_free i s g),
              find_first-none (has_fd fd) ss h i s g,
            )),
          )
      | inr (s, found) ↦
          let (a, k, at_k, e) = hit is_free (register_slot fd now) ss s found in
          inl (
            a,
            record {
              index = k;
              was = s;
              is_now = register_slot fd now s;
              found = at_k;
              written = rw e (modify-some ss k _ at_k);
              others = e;
              own = (refl, refl, refl);
              how = inr (
                let (i, g, t) = find_first-some is_free ss s found in ground (arith, t),
                refl,
                refl,
              );
            },
          )
    ]
