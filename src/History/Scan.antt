-- ===== src/History/Scan.antt =====
-- The inner loop of chat_history_send_to_client, over the array as it lies.
use mathlib.Core.Option.{some-injective}
use esp32_web_chat.Common.{
  ℕ, zero, suc, ◌≤◌, ◌<◌, ◌≡◌, refl, sym, subst, ap, ◌∙◌, ◌⊎◌, inl, inr, Bool, true, false, ◌&&◌,
  Option, none, some, List, [], ◌∷◌, ◌++◌, arith, take, drop, replicate, take-append-drop, ltb,
  if◌then◌else◌, Bool-cases, Option-cases,
}
use esp32_web_chat.Config.{Message}
use esp32_web_chat.History.{
  MessageStore, no_message, is_filled, is_candidate, is_better, next_message,
}
use esp32_web_chat.History.Ring.{Holds}
use esp32_web_chat.History.Select.{
  Has, Has-swap, Has-right, after, first, Run-bounds, Run-unique, done, more, next_lem,
}

-- What the loop keeps: the best candidate so far, `next` included.
record Best (cursor until : ℕ) (next : Option Message) (ms : List Message) (r : Option Message)
    : Type 0 where
  origin :
      (m : Message)
      → r ≡ some m
      → (next ≡ some m) ⊎ (Has m ms × (is_candidate cursor until m ≡ true))
  least :
      (x : Message)
      → Has x ms
      → is_candidate cursor until x ≡ true
      → (m : Message) × (r ≡ some m) × (m.id ≤ x.id)
  kept : (a : Message) → next ≡ some a → (m : Message) × (r ≡ some m) × (m.id ≤ a.id)

-- The test of one entry.
improve : ℕ → ℕ → Option Message → Message → Option Message
improve cursor until next m =
    if is_candidate cursor until m && is_better next m then some m else next

and_left : (a b : Bool) → (a && b) ≡ true → a ≡ true
and_left true b h = refl
and_left false b h = h

improve-origin :
    (cursor until : ℕ) (next : Option Message) (m n : Message)
    → improve cursor until next m ≡ some n
    → (next ≡ some n) ⊎ ((n ≡ m) × (is_candidate cursor until m ≡ true))
unfolding improve
improve-origin cursor until next m n e =
    elim (Bool-cases (is_candidate cursor until m && is_better next m)) [
      | inl t ↦ inr (
        sym (some-injective _ _ (rw (improve, t) at e)),
        and_left (is_candidate cursor until m) _ t,
      )
      | inr f ↦ inl (rw (improve, f) at e)
    ]

improve-least :
    (cursor until : ℕ) (next : Option Message) (m : Message)
    → is_candidate cursor until m ≡ true
    → (n : Message) × (improve cursor until next m ≡ some n) × (n.id ≤ m.id)
unfolding improve
improve-least cursor until none m c = (m, rw c, omega arith)
improve-least cursor until (some a) m c = elim (Bool-cases (ltb m.id a.id)) [
  | inl t ↦ (m, rw (c, t), omega arith)
  | inr f ↦ (a, rw (c, f), ground arith)
]

improve-kept :
    (cursor until : ℕ) (a m : Message)
    → (n : Message) × (improve cursor until (some a) m ≡ some n) × (n.id ≤ a.id)
unfolding improve
improve-kept cursor until a m = elim (Bool-cases (is_candidate cursor until m && ltb m.id a.id)) [
  | inl t ↦ (m, rw t, ground arith)
  | inr f ↦ (a, rw f, omega arith)
]

next_message-Best :
    (cursor until : ℕ) (next : Option Message) (ms : List Message)
    → Best cursor until next ms (next_message cursor until next ms)
unfolding next_message improve
next_message-Best cursor until next [] = record {
  origin = λ m e. inl e;
  least = λ x h. absurd h;
  kept = λ a e. (a, e, omega arith);
}
next_message-Best cursor until next (x ∷ ms) =
    let ih = next_message-Best cursor until (improve cursor until next x) ms in
    record {
      origin = λ m e. elim (ih.origin m e) [
        | inr (h, c) ↦ inr (inr h, c)
        | inl h ↦ elim (improve-origin cursor until next x m h) [
          | inl k ↦ inl k
          | inr (k, c) ↦ inr (inl k, subst (λ y. is_candidate cursor until y ≡ true) (sym k) c)
        ]
      ];
      least = λ y h c. elim h [
        | inl e ↦
            let (n, p, q) =
              improve-least cursor until next x
                (subst (λ y. is_candidate cursor until y ≡ true) e c) in
            let (m, r, s) = ih.kept n p in (m, r, omega (arith, ap (λ (z : Message). z.id) e))
        | inr k ↦ ih.least y k c
      ];
      kept = λ a e.
          let (n, p, q) = improve-kept cursor until a x in
          let (m, r, s) = ih.kept n (ap (λ z. improve cursor until z x) e ∙ p) in
          (m, r, omega arith);
    }

-- An entry of the array is unused or one of the history's messages.
Holds-entry :
    (st : MessageStore) (ms : List Message) (m : Message)
    → Holds ms st
    → Has m st.message_buffer
    → is_filled m ≡ true
    → Has m ms
Holds-entry st ms m h k f = unused h.gap (
    subst (Has m) h.order
      (Has-swap m (take n b) (drop n b) (subst (Has m) (sym (take-append-drop n b)) k)))
  where
    n : ℕ
    n = st.message_buffer_head

    b : List Message
    b = st.message_buffer

    unused : (gap : ℕ) → Has m (replicate gap no_message ++ ms) → Has m ms
    unused zero k = k
    unused (suc gap) (inl e) = cc (f, ap (λ (x : Message). is_filled x) e)
    unused (suc gap) (inr k) = unused gap k

Holds-message :
    (st : MessageStore) (ms : List Message) (m : Message)
    → Holds ms st
    → Has m ms
    → Has m st.message_buffer
Holds-message st ms m h k =
    let n : ℕ = st.message_buffer_head in
    let b : List Message = st.message_buffer in
    subst (Has m) (take-append-drop n b) (
      Has-swap m (drop n b) (take n b)
        (subst (Has m) (sym h.order) (Has-right m (replicate h.gap no_message) ms k)))

candidate_fields :
    (cursor until : ℕ) (m : Message)
    → is_candidate cursor until m ≡ true
    → (is_filled m ≡ true) × (cursor < m.id)
candidate_fields cursor until m h = ground arith

to_candidate :
    (cursor until : ℕ) (m : Message)
    → is_filled m ≡ true
    → cursor < m.id
    → m.id ≤ until
    → is_candidate cursor until m ≡ true
to_candidate cursor until m f c u = ground arith

-- On a ring that holds a history, the search for the next message to replay finds the first
-- message of the history after the cursor, or nothing where none is left.
pub next_message-after :
    (cursor : ℕ) (st : MessageStore) (ms : List Message)
    → Holds ms st
    → next_message cursor st.message_id_counter none st.message_buffer ≡ first (after cursor ms)
next_message-after cursor st ms h = elim (next_lem cursor h.lo ms hi h.run) [
  | done e none_left ↦ rw e (elim (Option-cases found) [
    | inl q ↦ q
    | inr (m, q) ↦ absurd (omega (arith, (hit m q).1, none_left m (hit m q).0))
  ])
  | more m e k c least ↦
      let (f, u) = filled m k in
      let (n, q, le) = best.least m (Holds-message st ms m h k) (to_candidate cursor hi m f c u) in
      rw e (
        q
        ∙ ap some (
            Run-unique h.lo ms hi n m h.run (hit n q).0 k
              (omega (arith, le, least n (hit n q).0 (hit n q).1))))
]
  where
    hi : ℕ
    hi = st.message_id_counter

    found : Option Message
    found = next_message cursor hi none st.message_buffer

    best : Best cursor hi none st.message_buffer found
    best = next_message-Best cursor hi none st.message_buffer

    filled : (m : Message) → Has m ms → (is_filled m ≡ true) × (m.id ≤ hi)
    filled m k = let (a, b, c) = Run-bounds h.lo ms hi m h.run k in (c, b)

    -- What the loop returns is a message of the history after the cursor.
    hit : (m : Message) → found ≡ some m → Has m ms × (cursor < m.id)
    hit m q = elim (best.origin m q) [
      | inl k ↦ cc
      | inr (k, c) ↦ let (f, l) = candidate_fields cursor hi m c in (Holds-entry st ms m h k f, l)
    ]
