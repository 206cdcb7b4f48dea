-- ===== src/Protocol/Targets.antt =====
-- What validate_to_object of main/src/chat/protocol.c leaves in a message.
use mathlib.Core.Option.{some-injective}
use esp32_web_chat.Common.{
  subst, ℕ, zero, suc, ◌+◌, ◌≡◌, ◌≤◌, ◌⊎◌, refl, sym, ap, ◌∙◌, Bool, true, false, not, ◌&&◌, Option,
  none, some, List, [], ◌∷◌, Bytes, length, get_elem?, arith, if◌then◌else◌,
}
use esp32_web_chat.Platform.{Platform, Run, World, ◌>>=◌, done, call, on_option}
use esp32_web_chat.Json.{fits, json_string_in_range}
use esp32_web_chat.Protocol.{
  all_valid_users, targets_are_valid, ensure_all, ensure_item, on_bool, holds_true,
  validate_to_object,
}

-- What cJSON documents of the items of an object: one that is added, or changed, is found under its
-- name, adding `users` leaves `all` as it is, and an item that gets items keeps its own name.
pub record Items (p : Platform) : Type 0 where
  pub added_object :
      (n n' c : p.Node) (e : p.Env)
      → p.get_item n "to" ≡ none
      → (p.add_object n "to" e).0 ≡ some (n', c)
      → p.get_item n' "to" ≡ some c
  pub added_array :
      (n n' c : p.Node) (e : p.Env)
      → p.get_item n "users" ≡ none
      → (p.add_array n "users" e).0 ≡ some (n', c)
      → (p.get_item n' "users" ≡ some c) × (p.get_item n' "all" ≡ p.get_item n "all")
  pub added_flag_key :
      (n n' : p.Node) (e : p.Env)
      → (p.add_bool n "all" false e).0 ≡ some n'
      → p.key_of n' ≡ p.key_of n
  pub added_array_key :
      (n n' c : p.Node) (e : p.Env)
      → (p.add_array n "users" e).0 ≡ some (n', c)
      → p.key_of n' ≡ p.key_of n
  pub changed :
      (n u v : p.Node)
      → p.get_item n "to" ≡ some u
      → p.key_of v ≡ p.key_of u
      → p.get_item (p.set_item n "to" v) "to" ≡ some v

-- A user id of 1 to 63 bytes.
pub record IsUserId (p : Platform) (n : p.Node) : Type 0 where
  pub is_text : p.is_string n ≡ true
  pub text : Bytes
  pub value : p.value_string n ≡ some text
  pub low : 1 ≤ length text
  pub high : length text ≤ 63

-- The message says whom it is for: all, or a list of users that is not too long, and is not empty
-- where it is not for all.
pub record HasTargets (p : Platform) (max_clients : ℕ) (root : p.Node) : Type 0 where
  pub to : p.Node
  pub all : p.Node
  pub users : p.Node
  pub has_to : p.get_item root "to" ≡ some to
  pub has_all : p.get_item to "all" ≡ some all
  pub is_flag : p.is_bool all ≡ true
  pub has_users : p.get_item to "users" ≡ some users
  pub is_list : p.is_array users ≡ true
  pub few : length (p.children users) ≤ max_clients + 1
  pub each : (i : ℕ) (n : p.Node) → get_elem? (p.children users) i ≡ some n → IsUserId p n
  pub somebody : (p.is_true all ≡ true) ⊎ (1 ≤ length (p.children users))

module _ (p : Platform) where
  open p use {Node, get_item, is_string, value_string, children}

  fits-IsUserId :
      (n : Node) (o : Option Bytes)
      → value_string n ≡ o
      → (is_string n && fits o 63 false) ≡ true
      → IsUserId p n
  fits-IsUserId n none e h = absurd (ground (arith, h))
  fits-IsUserId n (some t) e h = record {
    is_text = ground (arith, h);
    text = t;
    value = e;
    low = ground (arith, h);
    high = ground (arith, h);
  }

  all_valid-IsUserId :
      (ns : List Node)
      → all_valid_users p ns ≡ true
      → (i : ℕ) (n : Node) → get_elem? ns i ≡ some n
      → IsUserId p n
  unfolding all_valid_users json_string_in_range
  all_valid-IsUserId [] h i n g = absurd (ground (arith, g))
  all_valid-IsUserId (m ∷ ms) h zero n g =
      subst (IsUserId p) (some-injective _ _ g)
        (fits-IsUserId m (value_string m) refl (ground (arith, h)))
  all_valid-IsUserId (m ∷ ms) h (suc i) n g = all_valid-IsUserId ms (ground (arith, h)) i n g

module _ (p : Platform) (items : Items p) (max_clients : ℕ) where
  open p use {Env, Node, get_item, add_object, add_array, is_object, children, key_of}

  to-item :
      (root r c : Node) (o : Option Node) (w : World Env)
      → get_item root "to" ≡ o
      → (on_option o (call (add_object root "to")) (λ item. done (some (root, item))) w).0
        ≡ some (r, c)
      → get_item r "to" ≡ some c
  unfolding call done
  to-item root r c none w e q = items.added_object root r c w.env e q
  to-item root r c (some item) w e q =
      let same : (root, item) ≡ (r, c) = some-injective _ _ q in
      sym (ap (λ (x : Node × Node). get_item x.0 "to") same)
      ∙ e
      ∙ ap (λ (x : Node × Node). some x.1) same

  users-item :
      (n r c : Node) (o : Option Node) (w : World Env)
      → get_item n "users" ≡ o
      → (on_option o (call (add_array n "users")) (λ item. done (some (n, item))) w).0 ≡ some (r, c)
      → (get_item r "users" ≡ some c)
        × (get_item r "all" ≡ get_item n "all")
        × (key_of r ≡ key_of n)
  unfolding call done
  users-item n r c none w e q =
      let added = items.added_array n r c w.env e q in
      (added.0, added.1, items.added_array_key n r c w.env q)
  users-item n r c (some item) w e q =
      let same : (n, item) ≡ (r, c) = some-injective _ _ q in
      (
        sym (ap (λ (x : Node × Node). get_item x.0 "users") same)
            ∙ e
            ∙ ap (λ (x : Node × Node). some x.1) same,
        sym (ap (λ (x : Node × Node). get_item x.0 "all") same),
        sym (ap (λ (x : Node × Node). key_of x.0) same),
      )

  flag-key :
      (n r : Node) (o : Option Node) (w : World Env)
      → (on_option o (call (p.add_bool n "all" false)) (λ all. done (some n)) w).0 ≡ some r
      → key_of r ≡ key_of n
  unfolding call done
  flag-key n r none w q = items.added_flag_key n r w.env q
  flag-key n r (some all) w q = sym (ap key_of (some-injective _ _ q))

  -- What is right of an answer: a message that is let through has its targets.
  abbrev Right : Option Node × World Env → Type 0
  Right o = (root : Node) → o.0 ≡ some root → HasTargets p max_clients root

  refused : (w : World Env) → Right (done none w)
  unfolding done
  refused w root q = absurd (ground (arith, q))

  option-Right :
      {X : Type 0} (o : Option X) (k : X → Run Env (Option Node)) (w : World Env)
      → ((x : X) → o ≡ some x → Right (k x w))
      → Right (on_option o (done none) k w)
  option-Right none k w h = refused w
  option-Right (some x) k w h = h x refl

  if-Right :
      (b : Bool) (k : Run Env (Option Node)) (w : World Env)
      → (b ≡ true → Right (k w))
      → Right ((if not b then done none else k) w)
  if-Right false k w h = refused w
  if-Right true k w h = h refl

  then-Right :
      (b : Bool) (root : Node) (w : World Env)
      → (b ≡ true → HasTargets p max_clients root)
      → Right ((if b then done (some root) else done none) w)
  unfolding done
  then-Right true root w h = λ r q. subst (HasTargets p max_clients) (some-injective _ _ q) (h refl)
  then-Right false root w h = refused w

  targets :
      (root to0 to1 to2 users : Node) (all : Option Node)
      → get_item root "to" ≡ some to0
      → get_item to1 "all" ≡ all
      → on_bool p all ≡ true
      → key_of to1 ≡ key_of to0
      → (get_item to2 "users" ≡ some users)
        × (get_item to2 "all" ≡ get_item to1 "all")
        × (key_of to2 ≡ key_of to1)
      → targets_are_valid p max_clients (get_item to2 "all") users ≡ true
      → HasTargets p max_clients (p.set_item root "to" to2)
  unfolding targets_are_valid
  targets root to0 to1 to2 users none r a b k u v = absurd (ground (arith, b))
  targets root to0 to1 to2 users (some all) r a b k u v =
      let same : get_item to2 "all" ≡ some all = u.1 ∙ a in
      let holds : holds_true p (get_item to2 "all") ≡ p.is_true all = ap (holds_true p) same in
      record {
        to = to2;
        all = all;
        users = users;
        has_to = items.changed root to0 to2 r (u.2 ∙ k);
        has_all = same;
        is_flag = b;
        has_users = u.0;
        is_list = ground (arith, v);
        few = ground (arith, v);
        each = all_valid-IsUserId p (children users) (ground (arith, v));
        somebody = ground (arith, v, holds);
      }

  -- Where cJSON finds an item that was added or changed under its name, adding `users` leaves
  -- `all` alone, and an item that gets items keeps its name, a message that validate_to_object
  -- lets through, with what it has added, has a `to` with a Boolean `all` and an array `users` of
  -- at most MAX_CLIENTS + 1 items, each a text of 1 to 63 bytes, and it is for all or has a user.
  pub validate_to_object-HasTargets :
      (root valid : Node) (w : World Env)
      → (validate_to_object p max_clients root w).0 ≡ some valid
      → HasTargets p max_clients valid
  unfolding validate_to_object ensure_item ensure_all ◌>>=◌
  validate_to_object-HasTargets root valid w =
      let found = ensure_item p add_object root "to" w in
      option-Right found.0 _ found.1
        (λ a e. if-Right (is_object a.1) _ found.1 (λ is_object_to.
          let with_all = ensure_all p a.1 found.1 in
          option-Right with_all.0 _ with_all.1 (λ to1 f.
            if-Right (on_bool p (get_item to1 "all")) _ with_all.1 (λ flag.
              let with_users = ensure_item p add_array to1 "users" with_all.1 in
              option-Right with_users.0 _ with_users.1 (λ b g.
                then-Right (targets_are_valid p max_clients (get_item b.0 "all") b.1) _ with_users.1
                  (λ v.
                    targets a.0 a.1 to1 b.0 b.1 (get_item to1 "all")
                      (to-item root a.0 a.1 (get_item root "to") w refl e) refl flag
                      (flag-key a.1 to1 (get_item a.1 "all") found.1 f)
                      (users-item to1 b.0 b.1 (get_item to1 "users") with_all.1 refl g) v))))))
        valid
