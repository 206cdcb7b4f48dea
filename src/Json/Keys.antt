-- ===== src/Json/Keys.antt =====
-- json_has_duplicate_keys of main/src/common/utils.c finds exactly the objects whose members are not
-- named, or share a name, however deep they are.
use mathlib.Core.Option.{some-injective}
use esp32_web_chat.Common.{
  ℕ, zero, suc, ◌≡◌, ◌≢◌, ◌↔◌, ◌<◌, refl, sym, ap, ◌∙◌, Bool, true, false, ◌||◌, Option, none, some,
  List, [], ◌∷◌, Bytes, bytes_eq, bytes_eq_refl, bytes_eq→eq, get_elem?, arith, Bool-cases, inl,
  inr,
}
use esp32_web_chat.Platform.{Platform}
use esp32_web_chat.Json.{
  text_is, key_again, bad_key, bad_members, bad_elements, json_has_duplicate_keys,
}

text_is-eq : (o : Option Bytes) (key : Bytes) → o ≡ some key → text_is o key ≡ true
text_is-eq o key e = rw e (bytes_eq_refl key)

text_is-ne : (o : Option Bytes) (key : Bytes) → o ≢ some key → text_is o key ≡ false
text_is-ne none key h = refl
text_is-ne (some s) key h = elim (Bool-cases (bytes_eq s key)) [
  | inl same ↦ absurd (h (ap some (bytes_eq→eq s key same)))
  | inr other ↦ other
]

module _ (p : Platform) where
  open p use {Node, key_of, children, is_object, is_array}

  -- Every member has a name, and no two have the same.
  pub record DistinctKeys (members : List Node) : Type 0 where
    pub named : (i : ℕ) (c : Node) → get_elem? members i ≡ some c → key_of c ≢ none
    pub apart :
        (i j : ℕ) (c d : Node)
        → i < j
        → get_elem? members i ≡ some c
        → get_elem? members j ≡ some d
        → key_of c ≢ key_of d

  abbrev pub is_container : Node → Bool
  is_container n = is_object n || is_array n

  -- `m` is `n` or stands inside of it.
  pub data Below : Node → Node → Type 0 where
    here : (n : Node) → Below n n
    inside :
        (n c m : Node) (i : ℕ)
        → is_container n ≡ true
        → get_elem? (children n) i ≡ some c
        → Below c m
        → Below n m

  -- A node of at most so many levels.
  abbrev pub Within : ℕ → Node → Type 0
  Within zero n = ⊥
  Within (suc depth) n =
      is_container n ≡ true
      → (i : ℕ) (c : Node) → get_elem? (children n) i ≡ some c
      → Within depth c

  -- No object of the node, at any depth, has members that are not named or share a name.
  abbrev pub HasDistinctKeys : Node → Type 0
  HasDistinctKeys n = (m : Node) → Below n m → is_object m ≡ true → DistinctKeys (children m)

  key_again-absent :
      (key : Bytes) (rest : List Node)
      → key_again p key rest ≡ false
      → (j : ℕ) (d : Node) → get_elem? rest j ≡ some d
      → key_of d ≢ some key
  unfolding key_again
  key_again-absent key [] h j d g = absurd (ground (arith, g))
  key_again-absent key (e ∷ rest) h zero d g = λ k.
      let t = text_is-eq (key_of e) key (ap key_of (some-injective _ _ g) ∙ k) in
      absurd (ground (arith, t, h))
  key_again-absent key (e ∷ rest) h (suc j) d g = key_again-absent key rest (ground arith) j d g

  absent-key_again :
      (key : Bytes) (rest : List Node)
      → ((j : ℕ) (d : Node) → get_elem? rest j ≡ some d → key_of d ≢ some key)
      → key_again p key rest ≡ false
  unfolding key_again
  absent-key_again key [] h = refl
  absent-key_again key (d ∷ rest) h =
      let t = text_is-ne (key_of d) key (h 0 d refl) in
      let r = absent-key_again key rest (λ j. h (suc j)) in ground (arith, t, r)

  bad_key-named :
      (o : Option Bytes) (rest : List Node)
      → bad_key p o rest ≡ false
      → (key : Bytes) × (o ≡ some key) × (key_again p key rest ≡ false)
  bad_key-named none rest h = absurd (ground (arith, h))
  bad_key-named (some key) rest h = (key, refl, h)

  named-bad_key :
      (o : Option Bytes) (rest : List Node)
      → o ≢ none
      → ((j : ℕ) (d : Node) → get_elem? rest j ≡ some d → key_of d ≢ o)
      → bad_key p o rest ≡ false
  named-bad_key none rest n h = absurd (n refl)
  named-bad_key (some key) rest n h = absent-key_again key rest h

  -- What a loop with its recursive call finds nothing in.
  abbrev AllPass : (Node → Bool) → List Node → Type 0
  AllPass recur cs = (i : ℕ) (c : Node) → get_elem? cs i ≡ some c → recur c ≡ false

  AllPass-cons :
      (recur : Node → Bool) (c : Node) (rest : List Node)
      → recur c ≡ false
      → AllPass recur rest
      → AllPass recur (c ∷ rest)
  AllPass-cons recur c rest h k zero d g = ap recur (sym (some-injective _ _ g)) ∙ h
  AllPass-cons recur c rest h k (suc i) d g = k i d g

  DistinctKeys-cons :
      (c : Node) (rest : List Node)
      → bad_key p (key_of c) rest ≡ false
      → DistinctKeys rest
      → DistinctKeys (c ∷ rest)
  DistinctKeys-cons c rest h k = record { named = named; apart = apart }
    where
      key : (key : Bytes) × (key_of c ≡ some key) × (key_again p key rest ≡ false)
      key = bad_key-named (key_of c) rest h

      named : (i : ℕ) (d : Node) → get_elem? (c ∷ rest) i ≡ some d → key_of d ≢ none
      named zero d g = λ e. absurd (ground (arith, ap key_of (some-injective _ _ g), key.1, e))
      named (suc i) d g = k.named i d g

      apart :
          (i j : ℕ) (d e : Node)
          → i < j
          → get_elem? (c ∷ rest) i ≡ some d
          → get_elem? (c ∷ rest) j ≡ some e
          → key_of d ≢ key_of e
      apart i zero d e l g f = absurd (omega arith)
      apart zero (suc j) d e l g f = λ q.
          key_again-absent key.0 rest key.2 j e f
            (sym q ∙ ap key_of (sym (some-injective _ _ g)) ∙ key.1)
      apart (suc i) (suc j) d e l g f = k.apart i j d e (omega arith) g f

  or_false : (a b c : Bool) → (a || b || c) ≡ false → (a ≡ false) × (b ≡ false) × (c ≡ false)
  or_false a b c h = ground arith

  bad_members-distinct :
      (recur : Node → Bool) (cs : List Node)
      → bad_members p recur cs ≡ false
      → DistinctKeys cs × AllPass recur cs
  unfolding bad_members
  bad_members-distinct recur [] h = (
    record {
      named = λ i c g. absurd (ground (arith, g));
      apart = λ i j c d l g. absurd (ground (arith, g));
    },
    λ i c g. absurd (ground (arith, g)),
  )
  bad_members-distinct recur (c ∷ rest) h =
      let o = or_false (bad_key p (key_of c) rest) (recur c) (bad_members p recur rest) h in
      let r = bad_members-distinct recur rest o.2 in
      (DistinctKeys-cons c rest o.0 r.0, AllPass-cons recur c rest o.1 r.1)

  distinct-bad_members :
      (recur : Node → Bool) (cs : List Node)
      → DistinctKeys cs
      → AllPass recur cs
      → bad_members p recur cs ≡ false
  unfolding bad_members
  distinct-bad_members recur [] k h = refl
  distinct-bad_members recur (c ∷ rest) k h =
      let a =
        named-bad_key (key_of c) rest (k.named 0 c refl)
          (λ j d g q. k.apart 0 (suc j) c d (omega arith) refl g (sym q)) in
      let b = h 0 c refl in
      let r =
        distinct-bad_members recur rest
          (record {
            named = λ i. k.named (suc i);
            apart = λ i j d e l. k.apart (suc i) (suc j) d e (omega arith);
          })
          (λ i. h (suc i)) in
      ground (arith, a, b, r)

  bad_elements-pass :
      (recur : Node → Bool) (cs : List Node) → bad_elements p recur cs ≡ false → AllPass recur cs
  unfolding bad_elements
  bad_elements-pass recur [] h = λ i c g. absurd (ground (arith, g))
  bad_elements-pass recur (c ∷ rest) h =
      AllPass-cons recur c rest (ground arith) (bad_elements-pass recur rest (ground arith))

  pass-bad_elements :
      (recur : Node → Bool) (cs : List Node) → AllPass recur cs → bad_elements p recur cs ≡ false
  unfolding bad_elements
  pass-bad_elements recur [] h = refl
  pass-bad_elements recur (c ∷ rest) h =
      let b = h 0 c refl in
      let r = pass-bad_elements recur rest (λ i. h (suc i)) in ground (arith, b, r)

  Below-distinct :
      (depth : ℕ) (n m : Node)
      → Within depth n
      → json_has_duplicate_keys p depth n ≡ false
      → Below n m
      → is_object m ≡ true
      → DistinctKeys (children m)
  unfolding json_has_duplicate_keys
  Below-distinct zero n m within h b o = absurd within
  Below-distinct (suc depth) n m within h (here _) o =
      (bad_members-distinct (json_has_duplicate_keys p depth) (children n) (ground (arith, o, h))).0
  Below-distinct (suc depth) n m within h (inside _ c _ i container g b) o =
      Below-distinct depth c m (within container i c g) (clean i c g) b o
    where
      clean : AllPass (json_has_duplicate_keys p depth) (children n)
      clean = elim (Bool-cases (is_object n)) [
        | inl t ↦ (bad_members-distinct _ (children n) (ground (arith, t, h))).1
        | inr t ↦ bad_elements-pass _ (children n) (ground (arith, t, h, container))
      ]

  distinct-clean :
      (depth : ℕ) (n : Node)
      → Within depth n
      → HasDistinctKeys n
      → json_has_duplicate_keys p depth n ≡ false
  unfolding json_has_duplicate_keys
  distinct-clean zero n within d = refl
  distinct-clean (suc depth) n within d =
      let passes : is_container n ≡ true → AllPass (json_has_duplicate_keys p depth) (children n) =
        λ t i c g. distinct-clean depth c (within t i c g) (λ m b. d m (inside n c m i t g b)) in
      elim (Bool-cases (is_object n)) [
        | inl o ↦
            let r =
              distinct-bad_members _ (children n) (d n (here n) o) (passes (ground (arith, o))) in
            ground (arith, o, r)
        | inr o ↦ elim (Bool-cases (is_array n)) [
          | inl a ↦
              let r = pass-bad_elements _ (children n) (passes (ground (arith, o, a))) in
              ground (arith, o, a, r)
          | inr a ↦ ground (arith, o, a)
        ]
      ]

  -- On a node of at most as many levels as the fuel counts, json_has_duplicate_keys answers false
  -- exactly if, in every object that is the node or stands anywhere inside of it, every member has
  -- a name and no two members have the same name.
  pub json_has_duplicate_keys_iff :
      (depth : ℕ) (n : Node)
      → Within depth n
      → (json_has_duplicate_keys p depth n ≡ false) ↔ HasDistinctKeys n
  json_has_duplicate_keys_iff depth n within =
      (λ h m. Below-distinct depth n m within h, distinct-clean depth n within)
