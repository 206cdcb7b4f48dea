-- ===== src/Protocol/Privacy.antt =====
-- A response with older history goes to users alone that the message in it is for.
use esp32_web_chat.Common.{
  ◌≡◌, refl, sym, ap, ◌∙◌, Bool, true, false, Option, none, some, List, [], ◌∷◌, Bytes,
  if◌then◌else◌, arith, Bool-cases, inl, inr, get_elem?, ℕ, suc, Listed, ◌⊎◌,
}
use esp32_web_chat.Common.Int.{ℤ}
use esp32_web_chat.Config.{ClientSlot}
use esp32_web_chat.Slots.{Slots}
use esp32_web_chat.Platform.{Platform}
use esp32_web_chat.Json.Texts.{text_is-some}
use esp32_web_chat.Protocol.Parties.{Wrote, AddressedTo, message_visible_to_user-party}
use esp32_web_chat.Json.{text_is, contains_string, json_array_contains_string}
use esp32_web_chat.Protocol.{message_visible_to_user, is_target, relay_fds}
use esp32_web_chat.Protocol.Checks.{
  sees, all_see, users_of, users_match, history_response_targets_match_message,
}

module _ (p : Platform) where
  open p use {Node}

  -- A user that stands in the list can see the message.
  all_see-member :
      (message : Node) (users : List Node) (u : Bytes)
      → all_see p message users ≡ true
      → contains_string p u users ≡ true
      → message_visible_to_user p message u ≡ true
  unfolding all_see contains_string
  all_see-member message [] u a c = absurd (ground arith)
  all_see-member message (user ∷ users) u a c =
      elim (Bool-cases (text_is (p.value_string user) u)) [
        | inl e ↦ ground (arith, ap (sees p message) (text_is-some (p.value_string user) u e))
        | inr e ↦ all_see-member message users u (ground arith) (ground arith)
      ]

  matched-visible :
      (message : Node) (s : ClientSlot) (b : Bool) (users : Option Node)
      → users_match p message (if b then users else none) ≡ true
      → is_target p false users s ≡ true
      → (s.joined ≡ true) × (message_visible_to_user p message s.user_id ≡ true)
  unfolding json_array_contains_string
  matched-visible message s false users c t = absurd (ground arith)
  matched-visible message s true none c t = absurd (ground arith)
  matched-visible message s true (some users) c t = (
    ground arith,
    all_see-member message (p.children users) s.user_id (ground arith) (ground arith),
  )

  -- A connection that a message is relayed to is that of a target.
  abbrev Target : (ClientSlot → Type 0) → ℤ → Slots → Type 0
  Target Q fd ss = (i : ℕ) × (s : ClientSlot) × (get_elem? ss i ≡ some s) × (s.fd ≡ fd) × Q s

  later-Target :
      (Q : ClientSlot → Type 0) (fd : ℤ) (s : ClientSlot) (ss : Slots)
      → Target Q fd ss
      → Target Q fd (s ∷ ss)
  later-Target Q fd s ss (i, t, g, e, q) = (suc i, t, g, e, q)

  -- A slot that the loop looks at adds its connection where it is a target.
  cons-Target :
      (test : ClientSlot → Bool) (fd : ℤ) (s : ClientSlot) (ss : Slots) (rest : List ℤ) (b : Bool)
      → test s ≡ b
      → (Listed fd rest → Target (λ s. test s ≡ true) fd ss)
      → Listed fd (if b then s.fd ∷ rest else rest)
      → Target (λ s. test s ≡ true) fd (s ∷ ss)
  cons-Target test fd s ss rest true e ih (inl q) = (0, s, refl, sym q, e)
  cons-Target test fd s ss rest true e ih (inr l) = later-Target (λ s. test s ≡ true) fd s ss (ih l)
  cons-Target test fd s ss rest false e ih l = later-Target (λ s. test s ≡ true) fd s ss (ih l)

  relay_fds-Target :
      (send_all : Bool) (users : Option Node) (fd : ℤ) (ss : Slots)
      → Listed fd (relay_fds p send_all users ss)
      → Target (λ s. is_target p send_all users s ≡ true) fd ss
  unfolding relay_fds
  relay_fds-Target send_all users fd [] h = absurd h
  relay_fds-Target send_all users fd (s ∷ ss) h =
      cons-Target (λ s. is_target p send_all users s) fd s ss _ (is_target p send_all users s) refl
        (relay_fds-Target send_all users fd ss) h

  -- Where a response passes history_response_targets_match_message, every connection that it is
  -- relayed to by the list of users in its `to` is that of a slot that has joined as a user who
  -- wrote the message, its `from` being a string with the user's id, or to whom it is addressed,
  -- its `to` being an object whose `all` is true or whose `users` is an array with a string that
  -- is the user's id.
  pub relay_fds-visible :
      (root message to : Node) (fd : ℤ) (ss : Slots)
      → history_response_targets_match_message p root message ≡ true
      → p.get_item root "to" ≡ some to
      → Listed fd (relay_fds p false (p.get_item to "users") ss)
      → (i : ℕ) × (s : ClientSlot) × (get_elem? ss i ≡ some s)
        × (s.fd ≡ fd)
        × (s.joined ≡ true)
        × (Wrote p message s.user_id ⊎ AddressedTo p message s.user_id)
  unfolding history_response_targets_match_message
  relay_fds-visible root message to fd ss c e l =
      let (i, s, g, q, t) = relay_fds-Target false (p.get_item to "users") fd ss l in
      let matched = sym (ap (λ o. users_match p message (users_of p o)) e) ∙ c in
      let v = matched-visible message s (p.is_object to) (p.get_item to "users") matched t in
      (i, s, g, q, v.0, message_visible_to_user-party p message s.user_id v.1)
