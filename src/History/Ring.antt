-- ===== src/History/Ring.antt =====
-- The ring holds the last messages in order, with consecutive ids that end at the counter.
use esp32_web_chat.Common.{
  ℕ, zero, suc, ◌+◌, ◌%◌, ◌≤◌, ◌<◌, ◌≡◌, refl, sym, subst, ap, ◌∙◌, true, false, some, List, [],
  ◌∷◌, ◌++◌, append_assoc, append-nil, arith, length, take, drop, set, replicate, Bytes, ◌==◌,
  if◌then◌else◌, ==_iff, length-append, length-set, length-take, length-drop, dec_lt,
}
use native.Mathlib.Nat.{mod-eq_of_lt, mod-eq-sub-mod}
use esp32_web_chat.Config.{Message}
use esp32_web_chat.History.{MessageStore, no_message, is_filled, push_message}

-- The entries from the oldest place to the newest.
abbrev pub in_order : MessageStore → List Message
in_order st =
    drop st.message_buffer_head st.message_buffer ++ take st.message_buffer_head st.message_buffer

module _ {ℓ} {A : Type ℓ} where
  abbrev pub tail : List A → List A
  tail [] = []
  tail (x ∷ xs) = xs

  tail-drop : (n : ℕ) (xs : List A) → tail (drop n xs) ≡ drop (suc n) xs
  tail-drop zero [] = refl
  tail-drop zero (x ∷ xs) = refl
  tail-drop (suc n) [] = refl
  tail-drop (suc n) (x ∷ xs) = tail-drop n xs

  tail-append : (xs ys : List A) → 0 < length xs → tail (xs ++ ys) ≡ tail xs ++ ys
  tail-append [] ys h = absurd (omega arith)
  tail-append (x ∷ xs) ys h = refl

  drop-set : (xs : List A) (n : ℕ) (v : A) → drop (suc n) (set xs n v) ≡ drop (suc n) xs
  drop-set [] n v = refl
  drop-set (x ∷ xs) zero v = refl
  drop-set (x ∷ xs) (suc n) v = drop-set xs n v

  take-set :
      (xs : List A) (n : ℕ) (v : A)
      → n < length xs
      → take (suc n) (set xs n v) ≡ take n xs ++ v ∷ []
  take-set [] n v h = absurd (omega arith)
  take-set (x ∷ xs) zero v h = refl
  take-set (x ∷ xs) (suc n) v h = ap (◌∷◌ x) (take-set xs n v (omega arith))

  take-all : (n : ℕ) (xs : List A) → length xs ≤ n → take n xs ≡ xs
  take-all zero [] h = refl
  take-all zero (x ∷ xs) h = absurd (omega arith)
  take-all (suc n) [] h = refl
  take-all (suc n) (x ∷ xs) h = ap (◌∷◌ x) (take-all n xs (omega arith))

  drop-all : (n : ℕ) (xs : List A) → length xs ≤ n → drop n xs ≡ []
  drop-all zero [] h = refl
  drop-all zero (x ∷ xs) h = absurd (omega arith)
  drop-all (suc n) [] h = refl
  drop-all (suc n) (x ∷ xs) h = drop-all n xs (omega arith)

module _ {ℓ} {A : Type ℓ} (b : List A) (h : ℕ) (v : A) (inside : h < length b) where
  rest : tail (drop h b ++ take h b) ++ v ∷ [] ≡ drop (suc h) b ++ (take h b ++ v ∷ [])
  rest =
      rw (
        tail-append (drop h b) (take h b) (omega (arith, length-drop h b)),
        tail-drop,
        append_assoc,
      )

  rotate-set :
      (k : ℕ)
      → k ≡ (h + 1) % length b
      → drop k (set b h v) ++ take k (set b h v) ≡ tail (drop h b ++ take h b) ++ v ∷ []
  rotate-set k e = rw rest (elim (dec_lt (suc h) (length b)) [
    | yes more ↦
        let e' : k ≡ suc h = e ∙ mod-eq_of_lt (omega arith) ∙ omega arith in
        rw (e', drop-set, take-set b h v inside)
    | no last ↦
        let e' : k ≡ 0 =
          e
          ∙ mod-eq-sub-mod (omega arith)
          ∙ ap (λ (t : ℕ). t % length b) (omega arith)
          ∙ mod-eq_of_lt {n = 0} {m = length b} (omega arith) in
        rw (
          e',
          append-nil,
          drop-all (suc h) b (omega arith),
          ← take-set b h v inside,
          take-all (suc h) (set b h v) (omega (arith, length-set b h v)),
        )
  ])

-- The head stays inside the array.
abbrev pub InBounds : MessageStore → Type 0
InBounds st = st.message_buffer_head < length st.message_buffer

-- Storing a message drops the oldest entry and appends the new one.
pub in_order-push :
    (payload : Bytes) (id : ℕ) (st : MessageStore)
    → InBounds st
    → in_order (push_message payload id st)
      ≡ tail (in_order st) ++ record { payload = some payload; id = id } ∷ []
unfolding push_message
in_order-push payload id st h = rotate-set st.message_buffer st.message_buffer_head _ h _ refl

-- The messages `ms` are filled in, with the ids lo + 1, lo + 2, ... up to `hi`.
abbrev pub Run : ℕ → List Message → ℕ → Type 0
Run lo [] hi = lo ≡ hi
Run lo (m ∷ ms) hi = (m.id ≡ suc lo) × (is_filled m ≡ true) × Run (suc lo) ms hi

pub Run-length : (lo : ℕ) (ms : List Message) (hi : ℕ) → Run lo ms hi → hi ≡ lo + length ms
Run-length lo [] hi r = omega arith
Run-length lo (m ∷ ms) hi r = omega (arith, Run-length (suc lo) ms hi r.2)

Run-snoc :
    (lo : ℕ) (ms : List Message) (hi : ℕ) (m : Message)
    → Run lo ms hi
    → m.id ≡ suc hi
    → is_filled m ≡ true
    → Run lo (ms ++ m ∷ []) (suc hi)
Run-snoc lo [] hi m r e f = (e ∙ ap suc (sym r), f, ap suc r)
Run-snoc lo (x ∷ ms) hi m r e f = (r.0, r.1, Run-snoc (suc lo) ms hi m r.2 e f)

-- The store keeps the history `ms`: oldest first, with consecutive ids that end at the counter, in
-- the places before the head; the other places are unused.
pub record Holds (ms : List Message) (st : MessageStore) : Type 0 where
  pub inside : InBounds st
  pub gap : ℕ
  pub lo : ℕ
  pub order : in_order st ≡ replicate gap no_message ++ ms
  pub run : Run lo ms st.message_id_counter

-- A history of at most `room` messages: a new one pushes the oldest out when it is full.
abbrev pub remember : ℕ → Message → List Message → List Message
remember room m ms = if length ms == room then tail ms ++ m ∷ [] else ms ++ m ∷ []

pub length-in_order :
    (st : MessageStore) → InBounds st → length (in_order st) ≡ length st.message_buffer
length-in_order st h = omega (
  arith,
  length-append {0} (drop st.message_buffer_head st.message_buffer)
      (take st.message_buffer_head st.message_buffer),
  length-drop {0} st.message_buffer_head st.message_buffer,
  length-take {0} st.message_buffer_head st.message_buffer,
)

pub length-push :
    (payload : Bytes) (id : ℕ) (st : MessageStore)
    → length (push_message payload id st).message_buffer ≡ length st.message_buffer
unfolding push_message
length-push payload id st = length-set st.message_buffer _ _

push_fields :
    (payload : Bytes) (id : ℕ) (st : MessageStore)
    → InBounds st
    → ((push_message payload id st).message_id_counter ≡ id) × InBounds (push_message payload id st)
unfolding push_message
push_fields payload id st h = (
  refl,
  omega (
    arith,
    length-set st.message_buffer st.message_buffer_head
        (record { payload = some payload; id = id }),
  ),
)

module _ (payload : Bytes) (st : MessageStore) where
  abbrev new_message : Message
  new_message = record { payload = some payload; id = suc st.message_id_counter }

  abbrev stored : MessageStore
  stored = push_message payload (suc st.message_id_counter) st

  -- What the places hold afterwards, by whether one was unused.
  full :
      (room lo : ℕ) (ms : List Message)
      → 0 < length ms
      → length ms ≡ room
      → in_order stored ≡ tail ms ++ new_message ∷ []
      → Run lo ms st.message_id_counter
      → InBounds stored
      → stored.message_id_counter ≡ suc st.message_id_counter
      → Holds (remember room new_message ms) stored
  full room lo [] h e o r b c = absurd (omega arith)
  full room lo (x ∷ ms) h e o r b c = rw ((==_iff (length (x ∷ ms)) room).1 e) (record {
    inside = b;
    gap = 0;
    lo = suc lo;
    order = o;
    run =
        subst (Run (suc lo) (ms ++ new_message ∷ [])) (sym c)
          (Run-snoc (suc lo) ms st.message_id_counter new_message r.2 refl refl);
  })

  roomy :
      (room lo gap : ℕ) (ms : List Message)
      → length ms < room
      → in_order stored ≡ replicate gap no_message ++ (ms ++ new_message ∷ [])
      → Run lo ms st.message_id_counter
      → InBounds stored
      → stored.message_id_counter ≡ suc st.message_id_counter
      → Holds (remember room new_message ms) stored
  roomy room lo gap ms h o r b c =
      let n : (length ms == room) ≡ false = ground arith in
      rw n (record {
        inside = b;
        gap = gap;
        lo = lo;
        order = o;
        run =
            subst (Run lo (ms ++ new_message ∷ [])) (sym c)
              (Run-snoc lo ms st.message_id_counter new_message r refl refl);
      })

  by_gap :
      (gap lo : ℕ) (ms : List Message)
      → InBounds st
      → in_order st ≡ replicate gap no_message ++ ms
      → Run lo ms st.message_id_counter
      → Holds (remember (length st.message_buffer) new_message ms) stored
  by_gap zero lo ms b o r =
      let (c, b') = push_fields payload (suc st.message_id_counter) st b in
      let n : length ms ≡ length st.message_buffer =
        omega (arith, ap length o, length-in_order st b) in
      full (length st.message_buffer) lo ms (omega arith) n
        (in_order-push payload _ st b ∙ ap (λ xs. tail xs ++ new_message ∷ []) o) r b' c
  by_gap (suc gap) lo ms b o r =
      let (c, b') = push_fields payload (suc st.message_id_counter) st b in
      let n : length ms < length st.message_buffer = omega (
        arith,
        ap length o,
        length-in_order st b,
        length-append {0} (replicate gap no_message) ms,
      ) in
      roomy (length st.message_buffer) lo gap ms n
        (in_order-push payload _ st b
          ∙ ap (λ xs. tail xs ++ new_message ∷ []) o
          ∙ append_assoc (replicate gap no_message) ms _)
        r b' c

-- Storing a message under the next id in a ring that holds a history makes it hold the history
-- with the message appended, less its oldest message where the ring was full.
pub push-Holds :
    (payload : Bytes) (st : MessageStore) (ms : List Message)
    → Holds ms st
    → Holds
        (remember
          (length st.message_buffer)
          (record { payload = some payload; id = suc st.message_id_counter })
          ms)
        (push_message payload (suc st.message_id_counter) st)
push-Holds payload st ms h = by_gap payload st h.gap h.lo ms h.inside h.order h.run
