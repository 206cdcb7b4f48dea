-- ===== src/History/Bounds.antt =====
-- chat_history_fill_bounds_locked against the history that the ring holds.
use esp32_web_chat.Common.{
  ℕ, zero, suc, ◌+◌, ◌≤◌, ◌<◌, ◌≡◌, refl, sym, ap, ◌∙◌, true, List, [], ◌∷◌, ◌++◌, arith, length,
  take, drop, replicate, take-append-drop, ltb,
}
use esp32_web_chat.Config.{Message, HistoryBounds}
use esp32_web_chat.History.{
  MessageStore, no_message, is_filled, widen, widen_all, fill_bounds, start_bounds, finish_bounds,
}
use esp32_web_chat.History.Ring.{Holds, Run}

widen_comm : (b : HistoryBounds) (m n : Message) → widen (widen b m) n ≡ widen (widen b n) m
unfolding widen
widen_comm b m n = ground arith

widen_all-widen :
    (b : HistoryBounds) (m : Message) (xs : List Message)
    → widen_all (widen b m) xs ≡ widen (widen_all b xs) m
unfolding widen_all
widen_all-widen b m [] = refl
widen_all-widen b m (x ∷ xs) =
    ap (λ c. widen_all c xs) (widen_comm b m x) ∙ widen_all-widen (widen b x) m xs

widen_all-append :
    (b : HistoryBounds) (xs ys : List Message)
    → widen_all b (xs ++ ys) ≡ widen_all (widen_all b xs) ys
unfolding widen_all
widen_all-append b [] ys = refl
widen_all-append b (x ∷ xs) ys = widen_all-append (widen b x) xs ys

widen_all_comm :
    (b : HistoryBounds) (xs ys : List Message)
    → widen_all (widen_all b xs) ys ≡ widen_all (widen_all b ys) xs
unfolding widen_all
widen_all_comm b [] ys = refl
widen_all_comm b (x ∷ xs) ys =
    widen_all_comm (widen b x) xs ys ∙ ap (λ c. widen_all c xs) (widen_all-widen b x ys)

-- The order of the places does not matter to the bounds.
widen_all-rotate :
    (b : HistoryBounds) (n : ℕ) (xs : List Message)
    → widen_all b xs ≡ widen_all b (drop n xs ++ take n xs)
widen_all-rotate b n xs =
    ap (widen_all b) (sym (take-append-drop n xs))
    ∙ widen_all-append b (take n xs) (drop n xs)
    ∙ widen_all_comm b (take n xs) (drop n xs)
    ∙ sym (widen_all-append b (drop n xs) (take n xs))

widen_all-gap :
    (b : HistoryBounds) (n : ℕ) (ms : List Message)
    → widen_all b (replicate n no_message ++ ms) ≡ widen_all b ms
unfolding widen_all widen
widen_all-gap b zero ms = refl
widen_all-gap b (suc n) ms = widen_all-gap b n ms

widen-next :
    (b : HistoryBounds) (lo : ℕ) (m : Message)
    → m.id ≡ suc lo
    → is_filled m ≡ true
    → 0 < b.count
    → b.earliest_id ≤ lo
    → b.latest_id ≡ lo
    → widen b m ≡ record b { latest_id = suc lo; count = b.count + 1 }
unfolding widen
widen-next b lo m i f c e l = ground arith

-- Once a message is counted, the ones after it move only the count and the latest id.
widen_all-Run :
    (b : HistoryBounds) (lo : ℕ) (ms : List Message) (hi : ℕ)
    → Run lo ms hi
    → 0 < b.count
    → b.earliest_id ≤ lo
    → b.latest_id ≡ lo
    → widen_all b ms ≡ record b { latest_id = hi; count = b.count + length ms }
unfolding widen_all
widen_all-Run b lo [] hi r c e l = ground arith
widen_all-Run b lo (m ∷ ms) hi r c e l =
    let b' : HistoryBounds = record b { latest_id = suc lo; count = b.count + 1 } in
    ap (λ x. widen_all x ms) (widen-next b lo m r.0 r.1 c e l)
    ∙ widen_all-Run b' (suc lo) ms hi r.2 (omega arith) (omega arith) refl
    ∙ ap (λ (n : ℕ). record b { latest_id = hi; count = n }) (omega arith)

-- What the bounds say of a history `ms` that ends at the counter `hi`.
abbrev pub earliest_of : List Message → ℕ → ℕ
earliest_of [] otherwise = otherwise
earliest_of (m ∷ ms) otherwise = m.id

abbrev pub latest_of : List Message → ℕ → ℕ
latest_of [] hi = 0
latest_of (m ∷ ms) hi = hi

widen-first :
    (b : HistoryBounds) (m : Message)
    → is_filled m ≡ true
    → b.count ≡ 0
    → b.latest_id ≡ 0
    → widen b m ≡ record b { earliest_id = m.id; latest_id = m.id; count = 1 }
unfolding widen
widen-first b m f c l = ground arith

-- The loop's result on a history.
summary :
    (b : HistoryBounds) (lo : ℕ) (ms : List Message) (hi : ℕ)
    → b.count ≡ 0
    → b.earliest_id ≡ 0
    → b.latest_id ≡ 0
    → Run lo ms hi
    → widen_all b ms
      ≡ record b { earliest_id = earliest_of ms 0; latest_id = latest_of ms hi; count = length ms }
unfolding widen_all
summary b lo [] hi c e l r = ground arith
summary b lo (m ∷ ms) hi c e l r =
    let b' : HistoryBounds = record b { earliest_id = m.id; latest_id = m.id; count = 1 } in
    ap (λ x. widen_all x ms) (widen-first b m r.1 c l)
    ∙ widen_all-Run b' (suc lo) ms hi r.2 (omega arith) (omega arith) r.0
    ∙ ap (λ (n : ℕ). record b { earliest_id = m.id; latest_id = hi; count = n }) (omega arith)

-- The bounds of a store that holds a history are its number of messages, the ids of its first and
-- last one, and the id before which older messages may be restored, which is the first one's, or
-- the boot's where it is empty.
pub fill_bounds_lem :
    (st : MessageStore) (ms : List Message)
    → Holds ms st
    → fill_bounds st ≡ record {
      boot_start_id = st.boot_start_id;
      current_id = st.message_id_counter;
      earliest_id = earliest_of ms 0;
      latest_id = latest_of ms st.message_id_counter;
      restore_before_id = earliest_of ms st.boot_start_id;
      count = length ms;
      capacity = length st.message_buffer;
      has_more_before = ltb 1 (earliest_of ms st.boot_start_id);
    }
unfolding fill_bounds
fill_bounds_lem st ms h =
    ap finish_bounds (
      widen_all-rotate (start_bounds st) st.message_buffer_head st.message_buffer
      ∙ ap (widen_all (start_bounds st)) h.order
      ∙ widen_all-gap (start_bounds st) h.gap ms
      ∙ summary (start_bounds st) h.lo ms st.message_id_counter refl refl refl h.run)
    ∙ finished ms
  where
    finished :
        (xs : List Message)
        → finish_bounds (record (start_bounds st) {
          earliest_id = earliest_of xs 0;
          latest_id = latest_of xs st.message_id_counter;
          count = length xs;
        })
          ≡ record {
            boot_start_id = st.boot_start_id;
            current_id = st.message_id_counter;
            earliest_id = earliest_of xs 0;
            latest_id = latest_of xs st.message_id_counter;
            restore_before_id = earliest_of xs st.boot_start_id;
            count = length xs;
            capacity = length st.message_buffer;
            has_more_before = ltb 1 (earliest_of xs st.boot_start_id);
          }
    finished [] = ground arith
    finished (x ∷ xs) = ground arith
