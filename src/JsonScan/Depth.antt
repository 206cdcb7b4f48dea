-- ===== src/JsonScan/Depth.antt =====
-- The nesting of a payload that the scan lets through.
use esp32_web_chat.Common.{
  ℕ, ◌+◌, ◌-◌, ◌≡◌, ◌≤◌, refl, Bool, true, false, not, ◌||◌, some, [], ◌∷◌, Bytes, arith, ◌==◌,
  is_empty, if◌then◌else◌, Option-cases, Bool-cases, inl, inr,
}
use esp32_web_chat.Utf8.{valid_utf8}
use esp32_web_chat.JsonScan.{
  Mode, outside, inside, escaped, scan_byte, scan_inside, scan_outside, scan, may_parse,
}

-- How a payload reads on its own: the mode after a byte, without any check.
abbrev pub read_mode : Mode → ℕ → Mode
read_mode escaped ch = inside
read_mode inside ch = if ch == 92 then escaped else if ch == 34 then outside else inside
read_mode outside ch = if ch == 34 then inside else outside

abbrev pub is_opening : Mode → ℕ → Bool
is_opening outside ch = ch == 123 || ch == 91
is_opening _ ch = false

abbrev pub is_closing : Mode → ℕ → Bool
is_closing outside ch = ch == 125 || ch == 93
is_closing _ ch = false

-- The brackets of a payload that stand outside of strings match in number, no closing one comes too
-- early, at most 16 are open at a time, and no string is left open.
abbrev pub IsNested : ℕ → Mode → Bytes → Type 0
IsNested depth mode [] = (depth ≡ 0) × (mode ≡ outside)
IsNested depth mode (ch ∷ rest) =
    (depth ≤ 16)
    × ((if is_closing mode ch then 1 else 0) ≤ depth)
    × IsNested
        (if is_opening mode ch then depth + 1 else if is_closing mode ch then depth - 1 else depth)
        (read_mode mode ch) rest

scan_byte-step :
    (depth : ℕ) (mode : Mode) (ch : ℕ) (rest : Bytes) (d : ℕ) (m : Mode)
    → scan_byte depth mode ch rest ≡ some (d, m)
    → depth ≤ 16
    → (d ≤ 16)
      × (m ≡ read_mode mode ch)
      × (d ≡ (
          if is_opening mode ch
          then depth + 1
          else if is_closing mode ch
          then depth - 1
          else depth))
      × ((if is_closing mode ch then 1 else 0) ≤ depth)
unfolding scan_byte scan_inside scan_outside
scan_byte-step depth outside ch rest d m e h = ground arith
scan_byte-step depth inside ch rest d m e h = ground arith
scan_byte-step depth escaped ch rest d m e h = ground arith

scan-IsNested :
    (depth : ℕ) (mode : Mode) (payload : Bytes)
    → depth ≤ 16
    → scan depth mode payload ≡ true
    → IsNested depth mode payload
unfolding scan
scan-IsNested depth outside [] h e = (ground arith, refl)
scan-IsNested depth inside [] h e = cc
scan-IsNested depth escaped [] h e = cc
scan-IsNested depth mode (ch ∷ rest) h e = elim (Option-cases (scan_byte depth mode ch rest)) [
  | inl q ↦ cc (rw (scan, q) at e)
  | inr ((d, m), q) ↦
      let (a, b, c, k) = scan_byte-step depth mode ch rest d m q h in
      (h, k, rw⁻¹ (b, c) (scan-IsNested d m rest a (rw (scan, q) at e)))
]

-- A payload that passes the tests before cJSON is valid UTF-8, and read with JSON's rule for
-- strings its brackets outside of strings match in number, no closing bracket comes before its
-- opening one, at most 16 are open at a time, and no string is left open.
pub may_parse-IsNested :
    (payload : Bytes)
    → may_parse payload ≡ true
    → (valid_utf8 payload ≡ true) × IsNested 0 outside payload
unfolding may_parse
may_parse-IsNested payload e = elim (Bool-cases (is_empty payload || not (valid_utf8 payload))) [
  | inl t ↦ cc (rw (may_parse, t) at e)
  | inr t ↦ (ground arith, scan-IsNested 0 outside payload (omega arith) (rw (may_parse, t) at e))
]
