-- ===== src/History/Select.antt =====
-- The messages of a history after a cursor, which chat_history_send_to_client replays one by one.
use esp32_web_chat.Common.{
  ℕ, suc, ◌≤◌, ◌<◌, ◌≡◌, refl, sym, ap, ◌∙◌, ◌⊎◌, inl, inr, true, false, Option, none, some, List,
  [], ◌∷◌, ◌++◌, arith, ltb, if◌then◌else◌, Bool-cases,
}
use esp32_web_chat.Config.{Message}
use esp32_web_chat.History.{is_filled}
use esp32_web_chat.History.Ring.{Run, Run-length}

abbrev pub Has : Message → List Message → Type 0
Has m [] = ⊥
Has m (x ∷ xs) = (m ≡ x) ⊎ Has m xs

Has-append : (m : Message) (xs ys : List Message) → Has m (xs ++ ys) → Has m xs ⊎ Has m ys
Has-append m [] ys h = inr h
Has-append m (x ∷ xs) ys (inl e) = inl (inl e)
Has-append m (x ∷ xs) ys (inr h) = elim (Has-append m xs ys h) [
  | inl k ↦ inl (inr k)
  | inr k ↦ inr k
]

Has-left : (m : Message) (xs ys : List Message) → Has m xs → Has m (xs ++ ys)
Has-left m [] ys h = absurd h
Has-left m (x ∷ xs) ys (inl e) = inl e
Has-left m (x ∷ xs) ys (inr h) = inr (Has-left m xs ys h)

pub Has-right : (m : Message) (xs ys : List Message) → Has m ys → Has m (xs ++ ys)
Has-right m [] ys h = h
Has-right m (x ∷ xs) ys h = inr (Has-right m xs ys h)

pub Has-swap : (m : Message) (xs ys : List Message) → Has m (xs ++ ys) → Has m (ys ++ xs)
Has-swap m xs ys h = elim (Has-append m xs ys h) [
  | inl k ↦ Has-right m ys xs k
  | inr k ↦ Has-left m ys xs k
]

-- The messages with ids above the cursor.
abbrev pub after : ℕ → List Message → List Message
after cursor [] = []
after cursor (m ∷ ms) = if ltb cursor m.id then m ∷ after cursor ms else after cursor ms

abbrev pub first : List Message → Option Message
first [] = none
first (m ∷ ms) = some m

pub Run-bounds :
    (lo : ℕ) (ms : List Message) (hi : ℕ) (m : Message)
    → Run lo ms hi
    → Has m ms
    → (lo < m.id) × (m.id ≤ hi) × (is_filled m ≡ true)
Run-bounds lo [] hi m r h = absurd h
Run-bounds lo (x ∷ ms) hi m r (inl e) =
    (rw e (omega arith), rw e (omega (arith, Run-length (suc lo) ms hi r.2)), rw e (r.1))
Run-bounds lo (x ∷ ms) hi m r (inr h) =
    let (a, b, c) = Run-bounds (suc lo) ms hi m r.2 h in (omega arith, b, c)

pub Run-unique :
    (lo : ℕ) (ms : List Message) (hi : ℕ) (m n : Message)
    → Run lo ms hi
    → Has m ms
    → Has n ms
    → m.id ≡ n.id
    → m ≡ n
Run-unique lo [] hi m n r h k e = absurd h
Run-unique lo (x ∷ ms) hi m n r (inl h) (inl k) e = h ∙ sym k
Run-unique lo (x ∷ ms) hi m n r (inl h) (inr k) e =
    absurd (omega (arith, Run-bounds (suc lo) ms hi n r.2 k, ap (λ (y : Message). y.id) h))
Run-unique lo (x ∷ ms) hi m n r (inr h) (inl k) e =
    absurd (omega (arith, Run-bounds (suc lo) ms hi m r.2 h, ap (λ (y : Message). y.id) k))
Run-unique lo (x ∷ ms) hi m n r (inr h) (inr k) e = Run-unique (suc lo) ms hi m n r.2 h k e

pub after-all : (c lo : ℕ) (ms : List Message) (hi : ℕ) → Run lo ms hi → c ≤ lo → after c ms ≡ ms
after-all c lo [] hi r h = refl
after-all c lo (m ∷ ms) hi r h =
    let t : ltb c m.id ≡ true = ground arith in
    rw t (ap (◌∷◌ m) (after-all c (suc lo) ms hi r.2 (omega arith)))

ltb_irrefl : (n : ℕ) → ltb n n ≡ false
ltb_irrefl n = ground arith

le→ltb_false : (a b : ℕ) → b ≤ a → ltb a b ≡ false
le→ltb_false a b h = ground arith

-- Either nothing is left after the cursor, or a first message is.
pub data Next (cursor : ℕ) (ms : List Message) : Type 0 where
  done : after cursor ms ≡ [] → ((x : Message) → Has x ms → x.id ≤ cursor) → Next cursor ms
  more :
      (m : Message)
      → after cursor ms ≡ m ∷ after m.id ms
      → Has m ms
      → cursor < m.id
      → ((x : Message) → Has x ms → cursor < x.id → m.id ≤ x.id)
      → Next cursor ms

pub next_lem : (cursor lo : ℕ) (ms : List Message) (hi : ℕ) → Run lo ms hi → Next cursor ms
next_lem cursor lo [] hi r = done refl (λ x h. absurd h)
next_lem cursor lo (m ∷ ms) hi r = elim (Bool-cases (ltb cursor m.id)) [
  | inl t ↦
      more m
        (rw (t, ltb_irrefl m.id)
          (ap (◌∷◌ m) (
            after-all cursor (suc lo) ms hi r.2 (ground arith)
            ∙ sym (after-all m.id (suc lo) ms hi r.2 (omega arith)))))
        (inl refl) (ground arith)
        (λ x k l. elim k [
          | inl e ↦ omega (arith, ap (λ (y : Message). y.id) e)
          | inr k' ↦ omega (arith, Run-bounds (suc lo) ms hi x r.2 k')
        ])
  | inr f ↦ elim (next_lem cursor (suc lo) ms hi r.2) [
    | done e h ↦ done (rw f e) (λ x k. elim k [
      | inl q ↦
          let le : m.id ≤ cursor = ground arith in omega (arith, le, ap (λ (y : Message). y.id) q)
      | inr k' ↦ h x k'
    ])
    | more n e h c l ↦
        more n
          ((rw (f, le→ltb_false n.id m.id (omega (arith, Run-bounds (suc lo) ms hi n r.2 h))) e))
          (inr h) c
          (λ x k. elim k [
            | inl q ↦ λ j.
                let le : m.id ≤ cursor = ground arith in
                absurd (omega (arith, le, j, ap (λ (y : Message). y.id) q))
            | inr k' ↦ l x k'
          ])
  ]
]
