-- ===== src/JsonScan.antt =====
-- The scan that chat_json_parse_object of main/src/common/utils.c makes before it calls cJSON.
pub mod Depth
use esp32_web_chat.Common.{
  ℕ, zero, suc, ◌+◌, ◌-◌, Bool, true, false, not, ◌&&◌, ◌||◌, Option, none, some, List, [], ◌∷◌,
  Bytes, codes, bytes_eq, if◌then◌else◌, ltb, ◌==◌, is_empty, take,
}
use esp32_web_chat.Config.{max_json_nesting_depth}
use esp32_web_chat.Utf8.{valid_utf8}

-- Where the scan is: outside a string, inside one, or at the byte that `i++` skips after a
-- backslash.
pub data Mode : Type 0 where
  outside inside escaped : Mode

-- `i + 5 < length && memcmp(payload + i + 1, "u0000", 5) == 0` on the bytes after the backslash.
abbrev pub is_escaped_nul : Bytes → Bool
is_escaped_nul (a ∷ b ∷ c ∷ d ∷ e ∷ _) = a == 117 && b == 48 && c == 48 && d == 48 && e == 48
is_escaped_nul _ = false

-- One byte inside a string, with the bytes after it.
unfoldable pub scan_inside : ℕ → ℕ → Bytes → Option (ℕ × Mode)
scan_inside depth ch rest =
    if ltb ch 0x20
    then none
    else if ch == 92
    then (if is_empty rest || is_escaped_nul rest then none else some (depth, escaped))
    else if ch == 34
    then some (depth, outside)
    else some (depth, inside)

-- One byte outside of strings; 34 is a quote, 123, 91, 125 and 93 are brackets.
unfoldable pub scan_outside : ℕ → ℕ → Option (ℕ × Mode)
scan_outside depth ch =
    if ch == 34
    then some (depth, inside)
    else if ch == 123 || ch == 91
    then (if ltb max_json_nesting_depth (depth + 1) then none else some (depth + 1, outside))
    else if ch == 125 || ch == 93
    then (if depth == 0 then none else some (depth - 1, outside))
    else if ltb ch 0x20 && not (ch == 9) && not (ch == 10) && not (ch == 13)
    then none
    else some (depth, outside)

-- The loop body: `none` where the function returns NULL.
unfoldable pub scan_byte : ℕ → Mode → ℕ → Bytes → Option (ℕ × Mode)
unfolding scan_inside scan_outside
scan_byte depth escaped ch rest = some (depth, inside)
scan_byte depth inside ch rest = if ch == 0 then none else scan_inside depth ch rest
scan_byte depth outside ch rest = if ch == 0 then none else scan_outside depth ch

-- The loop and the test after it.
unfoldable pub scan : ℕ → Mode → Bytes → Bool
unfolding scan_byte
scan depth outside [] = depth == 0
scan depth _ [] = false
scan depth mode (ch ∷ rest) = elim (scan_byte depth mode ch rest) [
  | none ↦ false
  | some (depth', mode') ↦ scan depth' mode' rest
]

-- The tests that come before cJSON sees the payload.
unfoldable pub may_parse : Bytes → Bool
unfolding scan
may_parse payload =
    if is_empty payload || not (valid_utf8 payload) then false else scan 0 outside payload
