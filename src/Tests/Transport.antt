-- ===== src/Tests/Transport.antt =====
-- Sending a buffer over a connection that is interrupted and takes a byte at a time, and the limit on the sessions.
use esp32_web_chat.Common.{
  ℕ, zero, suc, ◌+◌, ◌≤◌, ◌≡◌, ◌⊎◌, none, ◌<◌, refl, [], ◌∷◌, ◌++◌, Bytes, some, take, length,
  arith,
}
use esp32_web_chat.Common.Int.{pos}
use esp32_web_chat.Platform.{Platform, SendResult, wrote, interrupted}
use esp32_web_chat.Transport.{SendAnswer, sent_bytes, send_loop, send_complete}
use esp32_web_chat.Transport.Complete.{Effect, Link, send_complete-Whole}
use esp32_web_chat.Transport.Ends.{Calm, send_complete-returns}
use esp32_web_chat.Http.Sockets.{
  available_sockets, max_open_sockets, all_sockets, max_open_sockets-fits,
}
use esp32_web_chat.Tests.Store.{over_link}

-- A connection that is interrupted as often as the second part says, and then takes a byte at a time.
abbrev put_byte : Bytes → Bytes × ℕ → SendResult × (Bytes × ℕ)
put_byte t (on_wire, zero) = (wrote (length (take 1 t)), (on_wire ++ take 1 t, zero))
put_byte t (on_wire, suc n) = (interrupted, (on_wire, n))

-- Its clock stands still.
abbrev slow_link : Platform
slow_link = over_link (Bytes × ℕ) (λ e. 7) (λ key n e. e) (λ e. e) (λ e. (3000000, e)) put_byte

put_byte-Effect : (t : Bytes) (e : Bytes × ℕ) → Effect e.0 t (put_byte t e).0 (put_byte t e).1.0
put_byte-Effect [] (w, zero) = refl
put_byte-Effect (x ∷ xs) (w, zero) = refl
put_byte-Effect t (w, suc n) = refl

abbrev slow_link-Link : Link slow_link (pos 5)
slow_link-Link = record { wire = λ e. e.0; timer_wire = λ e. refl; sends = put_byte-Effect }

put_byte-fewer : (t : Bytes) (e : Bytes × ℕ) → (put_byte t e).1.1 ≤ e.1
put_byte-fewer t (w, zero) = omega arith
put_byte-fewer t (w, suc n) = omega arith

put_byte-interruption :
    (t : Bytes) (e : Bytes × ℕ) → (put_byte t e).0 ≡ interrupted → (put_byte t e).1.1 < e.1
put_byte-interruption t (w, zero) q = absurd (ground (arith, q))
put_byte-interruption t (w, suc n) q = omega arith

stays : (e : Bytes × ℕ) → e.1 ≤ e.1
stays e = omega arith

abbrev slow_link-Calm : Calm slow_link (pos 5)
slow_link-Calm = record {
  signals = λ e. e.1;
  timer_signals = stays;
  send_signals = put_byte-fewer;
  interruption = put_byte-interruption;
}

-- Two bytes after one interruption.
send_complete-returns_example :
    (a : SendAnswer × (Bytes × ℕ)) × ((rounds : ℕ)
      → length {A = ℕ} (1 ∷ 2 ∷ []) + 1 < rounds
      → send_complete slow_link rounds (pos 5) (1 ∷ 2 ∷ []) (9 ∷ [], 1) ≡ some a)
send_complete-returns_example =
    send_complete-returns slow_link (pos 5) slow_link-Calm (1 ∷ 2 ∷ []) (9 ∷ [], 1)

abbrev all_three : Bytes
all_three = 9 ∷ 1 ∷ 2 ∷ []

sends_both :
    send_complete slow_link 4 (pos 5) (1 ∷ 2 ∷ []) (9 ∷ [], 1) ≡ some (sent_bytes 2, (all_three, 0))
unfolding send_complete send_loop
sends_both = refl

send_complete-Whole_example :
    (2 ≡ length {A = ℕ} (1 ∷ 2 ∷ [])) × (all_three ≡ (9 ∷ []) ++ (1 ∷ 2 ∷ []))
send_complete-Whole_example =
    send_complete-Whole slow_link (pos 5) slow_link-Link (1 ∷ 2 ∷ []) 4 (9 ∷ [], 1) (all_three, 0) 2
      sends_both

-- 16 sockets of lwIP and 13 clients: the limit is 12.
max_open_sockets-fits_example :
    (1 ≤ max_open_sockets (some 16) 13)
    × (max_open_sockets (some 16) 13 ≤ max_open_sockets none 13)
    × (all_sockets (some 16) 13 ≤ 16)
    × ((max_open_sockets (some 16) 13 ≡ max_open_sockets none 13) ⊎ (all_sockets (some 16) 13 ≡ 16))
max_open_sockets-fits_example = max_open_sockets-fits 16 13 (omega arith)

twelve_sockets : max_open_sockets (some 16) 13 ≡ 12
unfolding max_open_sockets available_sockets
twelve_sockets = refl
