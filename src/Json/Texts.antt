-- ===== src/Json/Texts.antt =====
-- What the comparisons of texts in main/src/common/utils.c say of the nodes that they pass.
use esp32_web_chat.Common.{
  ℕ, suc, ◌≡◌, refl, ap, inl, inr, true, Option, none, some, List, [], ◌∷◌, Bytes, bytes_eq→eq,
  get_elem?, arith, Bool-cases, ◌&&◌,
}
use esp32_web_chat.Platform.{Platform}
use esp32_web_chat.Json.{text_is, contains_string, json_array_contains_string}

pub text_is-some : (o : Option Bytes) (u : Bytes) → text_is o u ≡ true → o ≡ some u
text_is-some none u e = absurd (ground arith)
text_is-some (some t) u e = ap some (bytes_eq→eq t u e)

module _ (p : Platform) where
  open p use {Node}

  -- A string node with this text.
  abbrev pub IsText : Node → Bytes → Type 0
  IsText item u = (p.is_string item ≡ true) × (p.value_string item ≡ some u)

  pub IsText_lem :
      (item : Node) (u : Bytes)
      → (p.is_string item && text_is (p.value_string item) u) ≡ true
      → IsText item u
  IsText_lem item u e =
      (ground (arith, e), text_is-some (p.value_string item) u (ground (arith, e)))

  contains_string-IsText :
      (u : Bytes) (items : List Node)
      → contains_string p u items ≡ true
      → (i : ℕ) × (item : Node) × (get_elem? items i ≡ some item) × IsText item u
  unfolding contains_string
  contains_string-IsText u [] e = absurd (ground (arith, e))
  contains_string-IsText u (item ∷ items) e =
      elim (Bool-cases (p.is_string item && text_is (p.value_string item) u)) [
        | inl h ↦ (0, item, refl, IsText_lem item u h)
        | inr h ↦
            let (i, x, g, t) = contains_string-IsText u items (ground (arith, h, e)) in
            (suc i, x, g, t)
      ]

  -- An array with a string node that has this text.
  abbrev pub HasText : Node → Bytes → Type 0
  HasText array u =
      (p.is_array array ≡ true)
      × (i : ℕ) × (item : Node) × (get_elem? (p.children array) i ≡ some item)
      × IsText item u

  pub json_array_contains_string-HasText :
      (o : Option Node) (u : Bytes)
      → json_array_contains_string p o u ≡ true
      → (array : Node) × (o ≡ some array) × HasText array u
  unfolding json_array_contains_string
  json_array_contains_string-HasText none u e = absurd (ground (arith, e))
  json_array_contains_string-HasText (some array) u e =
      let (i, item, g, t) = contains_string-IsText u (p.children array) (ground (arith, e)) in
      (array, refl, (ground (arith, e), i, item, g, t))
