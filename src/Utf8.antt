-- ===== src/Utf8.antt =====
-- valid_utf8 of main/src/common/utils.c, and the encoding of code points that it recognises.
pub mod Decode
use esp32_web_chat.Common.{
  ℕ, zero, suc, ◌+◌, ◌*◌, ◌/◌, ◌%◌, ◌^◌, ◌≤◌, ◌<◌, ◌⊎◌, Bool, true, false, ◌&&◌, ◌||◌, Option, none,
  some, List, [], ◌∷◌, ◌++◌, Bytes, All, length, ltb, leb, ◌==◌, if◌then◌else◌,
}

-- What the lead byte of a longer sequence decides.
pub record Lead : Type 0 where
  pub continuation : ℕ
  pub minimum : ℕ
  pub codepoint : ℕ

-- The `else if` chain on the lead byte. `x & (2^k - 1)` is written `x % 2^k`.
unfoldable pub lead : ℕ → Option Lead
lead b =
    if leb 0xc2 b && leb b 0xdf
    then some (record { continuation = 1; minimum = 0x80; codepoint = b % 32 })
    else if leb 0xe0 b && leb b 0xef
    then some (record { continuation = 2; minimum = 0x800; codepoint = b % 16 })
    else if leb 0xf0 b && leb b 0xf4
    then some (record { continuation = 3; minimum = 0x10000; codepoint = b % 8 })
    else none

-- The inner loop: `(byte & 0xc0) != 0x80` ends it, and `(codepoint << 6) | (byte & 0x3f)` is kept
-- in 32 bits.
unfoldable pub continue_bytes : ℕ → ℕ → Bytes → Option (ℕ × Bytes)
continue_bytes zero cp rest = some (cp, rest)
continue_bytes (suc j) cp [] = none
continue_bytes (suc j) cp (byte ∷ rest) =
    if byte / 64 % 4 == 2 then continue_bytes j ((cp * 64 + byte % 64) % 2 ^ 32) rest else none

-- The test of a decoded code point: `true` where the code goes on.
unfoldable pub in_range : ℕ → ℕ → Bool
in_range minimum cp =
    if ltb cp minimum || ltb 0x10ffff cp || (leb 0xd800 cp && leb cp 0xdfff) then false else true

-- One sequence: the bytes after it, or `none` where the function returns false.
unfoldable pub step : ℕ → Bytes → Option Bytes
unfolding lead continue_bytes in_range
step b rest = if ltb b 0x80 then some rest else elim (lead b) [
  | none ↦ none
  | some l ↦
      if ltb (length rest) l.continuation
      then none
      else elim (continue_bytes l.continuation l.codepoint rest) [
        | none ↦ none
        | some (cp, rest') ↦ if in_range l.minimum cp then some rest' else none
      ]
]

-- The outer loop. A round takes one byte at least, so the payload's length is enough fuel.
unfoldable pub valid_from : ℕ → Bytes → Bool
valid_from fuel [] = true
valid_from zero (b ∷ rest) = false
valid_from (suc fuel) (b ∷ rest) = elim (step b rest) [
  | none ↦ false
  | some rest' ↦ valid_from fuel rest'
]

unfoldable pub valid_utf8 : Bytes → Bool
unfolding valid_from
valid_utf8 payload = valid_from (length payload) payload

-- A Unicode scalar value: a code point that is no surrogate.
abbrev pub IsScalar : ℕ → Type 0
IsScalar c = (c < 0xd800) ⊎ ((0xe000 ≤ c) × (c < 0x110000))

abbrev pub IsByte : ℕ → Type 0
IsByte b = b < 256

-- The shortest encoding of a code point (RFC 3629).
unfoldable pub encode : ℕ → Bytes
encode c =
    if ltb c 0x80
    then c ∷ []
    else if ltb c 0x800
    then (0xc0 + c / 64) ∷ (0x80 + c % 64) ∷ []
    else if ltb c 0x10000
    then (0xe0 + c / 4096) ∷ (0x80 + c / 64 % 64) ∷ (0x80 + c % 64) ∷ []
    else (0xf0 + c / 262144) ∷ (0x80 + c / 4096 % 64) ∷ (0x80 + c / 64 % 64) ∷ (0x80 + c % 64) ∷ []

unfoldable pub encode_all : List ℕ → Bytes
encode_all [] = []
encode_all (c ∷ cs) = encode c ++ encode_all cs
