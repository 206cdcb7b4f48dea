-- ===== src/Utf8/Decode.antt =====
-- valid_utf8 accepts exactly the encodings of sequences of Unicode scalar values.
use esp32_web_chat.Common.{
  ℕ, zero, suc, ◌+◌, ◌*◌, ◌/◌, ◌%◌, ◌≤◌, ◌<◌, inl, inr, true, some, List, [], ◌∷◌, ◌++◌, Bytes, All,
  length, arith, ◌≡◌, refl, ◌↔◌, Option-cases, dec_lt, subst, length-append,
}
use esp32_web_chat.Utf8.{step, valid_from, valid_utf8, IsScalar, IsByte, encode, encode_all}

step-ascii : (b : ℕ) (rest : Bytes) → b < 0x80 → step b rest ≡ some rest
unfolding step
step-ascii b rest h = ground arith

-- A two-byte sequence, by its bytes.
step-two :
    (b b1 : ℕ) (rest : Bytes) → 0xc2 ≤ b → b ≤ 0xdf → b1 / 64 ≡ 2 → step b (b1 ∷ rest) ≡ some rest
unfolding step
step-two b b1 rest lo hi h = ground arith

step-three :
    (b b1 b2 : ℕ) (rest : Bytes)
    → 0xe0 ≤ b
    → b ≤ 0xef
    → b1 / 64 ≡ 2
    → b2 / 64 ≡ 2
    → 0x800 ≤ (b % 16) * 4096 + (b1 % 64) * 64 + b2 % 64
    → IsScalar ((b % 16) * 4096 + (b1 % 64) * 64 + b2 % 64)
    → step b (b1 ∷ b2 ∷ rest) ≡ some rest
unfolding step
step-three b b1 b2 rest lo hi h1 h2 m s = ground arith

step-four :
    (b b1 b2 b3 : ℕ) (rest : Bytes)
    → 0xf0 ≤ b
    → b ≤ 0xf4
    → b1 / 64 ≡ 2
    → b2 / 64 ≡ 2
    → b3 / 64 ≡ 2
    → 0x10000 ≤ (b % 8) * 262144 + (b1 % 64) * 4096 + (b2 % 64) * 64 + b3 % 64
    → (b % 8) * 262144 + (b1 % 64) * 4096 + (b2 % 64) * 64 + b3 % 64 < 0x110000
    → step b (b1 ∷ b2 ∷ b3 ∷ rest) ≡ some rest
unfolding step
step-four b b1 b2 b3 rest lo hi h1 h2 h3 m s = ground arith

-- One round reads back one encoded code point.
step-encode :
    (c : ℕ) (rest : Bytes)
    → IsScalar c
    → (b : ℕ) × (tail : Bytes) × (encode c ++ rest ≡ b ∷ tail) × (step b tail ≡ some rest)
unfolding encode
step-encode c rest s = elim (dec_lt c 0x80) [
  | yes h ↦ (c, rest, ground arith, step-ascii c rest h)
  | no h0 ↦ elim (dec_lt c 0x800) [
    | yes h ↦ (
      0xc0 + c / 64,
      (0x80 + c % 64) ∷ rest,
      ground arith,
      step-two _ _ rest (omega arith) (omega arith) (omega arith),
    )
    | no h1 ↦ elim (dec_lt c 0x10000) [
      | yes h ↦ (
        0xe0 + c / 4096,
        (0x80 + c / 64 % 64) ∷ (0x80 + c % 64) ∷ rest,
        ground arith,
        step-three _ _ _ rest (omega arith) (omega arith) (omega arith) (omega arith) (omega arith)
            (omega arith),
      )
      | no h2 ↦ (
        0xf0 + c / 262144,
        (0x80 + c / 4096 % 64) ∷ (0x80 + c / 64 % 64) ∷ (0x80 + c % 64) ∷ rest,
        ground arith,
        step-four _ _ _ _ rest (omega arith) (omega arith) (omega arith) (omega arith) (omega arith)
            (omega arith) (omega arith),
      )
    ]
  ]
]

two-inv :
    (b : ℕ) (t rest : Bytes)
    → 0x80 ≤ b
    → b < 0xe0
    → All IsByte t
    → step b t ≡ some rest
    → (c : ℕ) × IsScalar c × (b ∷ t ≡ encode c ++ rest)
unfolding step encode
two-inv b [] rest lo hi ht e = ground arith
two-inv b (b1 ∷ t) rest lo hi ht e = ((b % 32) * 64 + b1 % 64, ground arith, ground arith)

three-inv :
    (b : ℕ) (t rest : Bytes)
    → 0xe0 ≤ b
    → b < 0xf0
    → All IsByte t
    → step b t ≡ some rest
    → (c : ℕ) × IsScalar c × (b ∷ t ≡ encode c ++ rest)
unfolding step encode
three-inv b [] rest lo hi ht e = ground arith
three-inv b (b1 ∷ []) rest lo hi ht e = ground arith
three-inv b (b1 ∷ b2 ∷ t) rest lo hi ht e =
    ((b % 16) * 4096 + (b1 % 64) * 64 + b2 % 64, ground arith, ground arith)

four-inv :
    (b : ℕ) (t rest : Bytes)
    → 0xf0 ≤ b
    → IsByte b
    → All IsByte t
    → step b t ≡ some rest
    → (c : ℕ) × IsScalar c × (b ∷ t ≡ encode c ++ rest)
unfolding step encode
four-inv b [] rest lo hi ht e = ground arith
four-inv b (b1 ∷ []) rest lo hi ht e = ground arith
four-inv b (b1 ∷ b2 ∷ []) rest lo hi ht e = ground arith
four-inv b (b1 ∷ b2 ∷ b3 ∷ t) rest lo hi ht e =
    ((b % 8) * 262144 + (b1 % 64) * 4096 + (b2 % 64) * 64 + b3 % 64, ground arith, ground arith)

-- A round that succeeds has read the encoding of a scalar value.
step-inv :
    (b : ℕ) (tail rest : Bytes)
    → IsByte b
    → All IsByte tail
    → step b tail ≡ some rest
    → (c : ℕ) × IsScalar c × (b ∷ tail ≡ encode c ++ rest)
unfolding step encode
step-inv b tail rest hb ht e = elim (dec_lt b 0x80) [
  | yes h ↦ (b, ground arith, ground arith)
  | no h0 ↦ elim (dec_lt b 0xe0) [
    | yes h1 ↦ two-inv b tail rest (omega arith) h1 ht e
    | no h1 ↦ elim (dec_lt b 0xf0) [
      | yes h2 ↦ three-inv b tail rest (omega arith) h2 ht e
      | no h2 ↦ four-inv b tail rest (omega arith) hb ht e
    ]
  ]
]

All-append : (P : ℕ → Type 0) (xs ys : Bytes) → All P (xs ++ ys) → All P ys
All-append P [] ys h = h
All-append P (x ∷ xs) ys h = All-append P xs ys h.1

length-encode : (c : ℕ) → 0 < length (encode c)
unfolding encode
length-encode c = ground arith

valid_from-encode :
    (fuel : ℕ) (cs : List ℕ)
    → All IsScalar cs
    → length (encode_all cs) ≤ fuel
    → valid_from fuel (encode_all cs) ≡ true
unfolding valid_from encode_all
valid_from-encode fuel [] s h = ground arith
valid_from-encode zero (c ∷ cs) s h =
    absurd (omega (arith, length-append (encode c) (encode_all cs), length-encode c))
valid_from-encode (suc fuel) (c ∷ cs) s h =
    let (b, tail, e, r) = step-encode c (encode_all cs) s.0 in
    rw (e, valid_from, r)
      (valid_from-encode fuel cs s.1
        (omega (arith, length-append (encode c) (encode_all cs), length-encode c)))

-- Bytes are a valid text when they encode some sequence of scalar values.
abbrev pub Encodes : Bytes → Type 0
Encodes payload = (cs : List ℕ) × All IsScalar cs × (encode_all cs ≡ payload)

valid_from-inv : (fuel : ℕ) (p : Bytes) → All IsByte p → valid_from fuel p ≡ true → Encodes p
unfolding valid_from encode_all
valid_from-inv fuel [] hp e = ([], tt, refl)
valid_from-inv zero (b ∷ rest) hp e = cc
valid_from-inv (suc fuel) (b ∷ rest) hp e = elim (Option-cases (step b rest)) [
  | inl n ↦ cc (rw (valid_from, n) at e)
  | inr (r, s) ↦
      let (c, sc, q) = step-inv b rest r hp.0 hp.1 s in
      let (cs, scs, t) =
        valid_from-inv fuel r (All-append IsByte (encode c) r (subst (All IsByte) q hp))
          (rw (valid_from, s) at e) in
      (c ∷ cs, (sc, scs), rw (t, q))
]

-- A byte string passes valid_utf8 exactly when it is the encoding of a sequence of Unicode scalar
-- values.
pub valid_utf8_iff_Encodes :
    (payload : Bytes) → All IsByte payload → (valid_utf8 payload ≡ true) ↔ Encodes payload
unfolding valid_utf8
valid_utf8_iff_Encodes payload h = (
  valid_from-inv (length payload) payload h,
  λ e. subst (λ p. valid_from (length p) p ≡ true) e.2 (valid_from-encode _ e.0 e.1 (omega arith)),
)
