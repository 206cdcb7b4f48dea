-- ===== src/Protocol/Parties.antt =====
-- Whom message_visible_to_user of main/src/chat/protocol.c lets see a message.
use esp32_web_chat.Common.{
  ◌≡◌, refl, ◌⊎◌, inl, inr, true, Option, none, some, Bytes, arith, Bool-cases,
}
use esp32_web_chat.Platform.{Platform}
use esp32_web_chat.Json.Texts.{IsText, IsText_lem, HasText, json_array_contains_string-HasText}
use esp32_web_chat.Protocol.{holds_true, is_from, is_addressed, message_visible_to_user}

module _ (p : Platform) where
  open p use {Node, get_item}

  -- The user wrote the message: its `from` is the user.
  abbrev pub Wrote : Node → Bytes → Type 0
  Wrote message user = (from : Node) × (get_item message "from" ≡ some from) × IsText p from user

  -- The message is for all, or the user is on the list of those that it is for.
  abbrev pub AddressedTo : Node → Bytes → Type 0
  AddressedTo message user =
      (to : Node) × (get_item message "to" ≡ some to)
      × (p.is_object to ≡ true)
      × (((all : Node) × (get_item to "all" ≡ some all) × (p.is_true all ≡ true))
          ⊎ ((users : Node) × (get_item to "users" ≡ some users) × HasText p users user))

  is_from-Wrote :
      (message : Node) (user : Bytes)
      → is_from p (get_item message "from") user ≡ true
      → Wrote message user
  is_from-Wrote message user = of_item (get_item message "from") refl
    where
      of_item :
          (o : Option Node)
          → get_item message "from" ≡ o
          → is_from p o user ≡ true
          → Wrote message user
      of_item none e h = absurd (ground (arith, h))
      of_item (some from) e h = (from, e, IsText_lem p from user h)

  holds_true-some :
      (o : Option Node) → holds_true p o ≡ true → (n : Node) × (o ≡ some n) × (p.is_true n ≡ true)
  holds_true-some none h = absurd (ground (arith, h))
  holds_true-some (some n) h = (n, refl, ground (arith, h))

  is_addressed-AddressedTo :
      (message : Node) (user : Bytes)
      → is_addressed p (get_item message "to") user ≡ true
      → AddressedTo message user
  is_addressed-AddressedTo message user = of_item (get_item message "to") refl
    where
      of_item :
          (o : Option Node)
          → get_item message "to" ≡ o
          → is_addressed p o user ≡ true
          → AddressedTo message user
      of_item none e h = absurd (ground (arith, h))
      of_item (some to) e h = (
        to,
        e,
        ground (arith, h),
        elim (Bool-cases (holds_true p (get_item to "all"))) [
          | inl t ↦ inl (holds_true-some (get_item to "all") t)
          | inr f ↦ inr (
              json_array_contains_string-HasText p (get_item to "users") user
                (ground (arith, h, f)))
        ],
      )

  -- Who may see a message wrote it, or it is addressed to them.
  pub message_visible_to_user-party :
      (message : Node) (user : Bytes)
      → message_visible_to_user p message user ≡ true
      → Wrote message user ⊎ AddressedTo message user
  unfolding message_visible_to_user
  message_visible_to_user-party message user h =
      elim (Bool-cases (is_from p (get_item message "from") user)) [
        | inl t ↦ inl (is_from-Wrote message user t)
        | inr f ↦ inr (is_addressed-AddressedTo message user (ground (arith, h, f)))
      ]
