-- ===== src/Dns/Reply.antt =====
-- What a reply keeps of its query.
use esp32_web_chat.Common.{
  ℕ, zero, suc, ◌+◌, ◌≡◌, ◌≢◌, ◌≤◌, ◌<◌, refl, ap, ◌∙◌, false, ◌||◌, some, [], ◌∷◌, ◌++◌, Bytes,
  arith, ltb, length, set, get_elem?, length-set, length-append,
}
use esp32_web_chat.Dns.{
  set_header, answer, answered, is_refused, reply, dns_packet_bytes, dns_answer_bytes,
}

get-set : (xs : Bytes) (i j v : ℕ) → j ≢ i → get_elem? (set xs i v) j ≡ get_elem? xs j
get-set [] i j v h = refl
get-set (x ∷ xs) zero zero v h = absurd (h refl)
get-set (x ∷ xs) zero (suc j) v h = refl
get-set (x ∷ xs) (suc i) zero v h = refl
get-set (x ∷ xs) (suc i) (suc j) v h = get-set xs i j v (λ e. h (ap suc e))

get-append : (xs ys : Bytes) (j : ℕ) → j < length xs → get_elem? (xs ++ ys) j ≡ get_elem? xs j
get-append [] ys j h = absurd (omega arith)
get-append (x ∷ xs) ys zero h = refl
get-append (x ∷ xs) ys (suc j) h = get-append xs ys j (omega arith)

length-set_header : (q : Bytes) → length (set_header q) ≡ length q
unfolding set_header
length-set_header q =
    length-set (set (set (set q 2 0x81) 3 0x80) 6 0x00) 7 0x01
    ∙ length-set (set (set q 2 0x81) 3 0x80) 6 0x00
    ∙ length-set (set q 2 0x81) 3 0x80
    ∙ length-set q 2 0x81

get-set_header :
    (q : Bytes) (j : ℕ) → j ≢ 2 → j ≢ 3 → j ≢ 6 → j ≢ 7 → get_elem? (set_header q) j ≡ get_elem? q j
unfolding set_header
get-set_header q j a b c d =
    get-set (set (set (set q 2 0x81) 3 0x80) 6 0x00) 7 j 0x01 d
    ∙ get-set (set (set q 2 0x81) 3 0x80) 6 j 0x00 c
    ∙ get-set (set q 2 0x81) 3 j 0x80 b
    ∙ get-set q 2 j 0x81 a

-- A received query of 12 to 240 bytes is answered, for an address of four bytes, with 16 bytes
-- more, which fits the packet buffer, and every byte of the query but those at 2, 3, 6 and 7 (the
-- flags and the number of answers) stands in the reply where it stood.
pub reply-keeps_query :
    (ip query : Bytes) (j : ℕ)
    → length ip ≡ 4
    → 12 ≤ length query
    → length query ≤ 240
    → j < length query
    → j ≢ 2
    → j ≢ 3
    → j ≢ 6
    → j ≢ 7
    → (r : Bytes) × (reply ip query ≡ some r)
      × (length r ≡ length query + 16)
      × (length r ≤ dns_packet_bytes)
      × (get_elem? r j ≡ get_elem? query j)
unfolding reply is_refused answered
reply-keeps_query ip query j four low high inside a b c d =
    let size : length (set_header query ++ answer ip) ≡ length query + 16 =
      omega (arith, length-append {0} (set_header query) (answer ip), length-set_header query) in
    let passes : (ltb (length query) 12 || ltb dns_packet_bytes (length query + dns_answer_bytes))
        ≡ false =
      ground arith in
    (
      set_header query ++ answer ip,
      rw (reply, is_refused, passes) refl,
      size,
      omega arith,
      get-append (set_header query) (answer ip) j (omega (arith, length-set_header query))
          ∙ get-set_header query j a b c d,
    )
