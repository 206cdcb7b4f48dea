-- ===== src/Common/Scan.antt =====
-- The loops over an array of slots, and what they leave at each index.
use mathlib.Core.Option
use mathlib.Core.Option.{some-injective}
use esp32_web_chat.Common.{
  ℕ, zero, suc, ◌≡◌, ◌≢◌, refl, ap, ◌⊎◌, inl, inr, Bool, true, false, Option, none, some, List, [],
  ◌∷◌, ◌||◌, if◌then◌else◌, get_elem?, modify, arith, Bool-cases,
}

-- Every element of the second list comes from the element of the first one at its index.
abbrev pub Pointwise {ℓ} : {A : Type ℓ} → (ℕ → A → A → Type ℓ) → List A → List A → Type ℓ
Pointwise {A} R xs ys =
    (i : ℕ) (y : A) → get_elem? ys i ≡ some y → (x : A) × (get_elem? xs i ≡ some x) × R i x y

module _ {ℓ} {A : Type ℓ} where
  -- `for (...) if (p(x)) { ...; break; }`: the first element that passes is updated.
  unfoldable pub update_first : (A → Bool) → (A → A) → List A → List A
  update_first p f [] = []
  update_first p f (x ∷ xs) = if p x then f x ∷ xs else x ∷ update_first p f xs

  unfoldable pub find_first : (A → Bool) → List A → Option A
  find_first p [] = none
  find_first p (x ∷ xs) = if p x then some x else find_first p xs

  -- `for (...) if (p(x)) { ... }`: every element that passes is updated.
  unfoldable pub update_all : (A → Bool) → (A → A) → List A → List A
  update_all p f [] = []
  update_all p f (x ∷ xs) = (if p x then f x else x) ∷ update_all p f xs

  unfoldable pub any_of : (A → Bool) → List A → Bool
  any_of p [] = false
  any_of p (x ∷ xs) = p x || any_of p xs

module _ {ℓ} {A : Type ℓ} (p : A → Bool) (f : A → A) where
  abbrev pub Changed : ℕ → A → A → Type ℓ
  Changed i x y = (y ≡ x) ⊎ ((p x ≡ true) × (y ≡ f x))

  pub update_first-get : (xs : List A) → Pointwise Changed xs (update_first p f xs)
  unfolding update_first
  update_first-get [] i y e = cc
  update_first-get (x ∷ xs) zero y e = (x, refl, ground arith)
  update_first-get (x ∷ xs) (suc i) y e = elim (Bool-cases (p x)) [
    | inl h ↦ (y, rw (update_first, h) at e, inl refl)
    | inr h ↦ update_first-get xs i y (rw (update_first, h) at e)
  ]

  pub update_all-get :
      (xs : List A)
      → Pointwise
          (λ i x y. ((p x ≡ false) × (y ≡ x)) ⊎ ((p x ≡ true) × (y ≡ f x)))
          xs
          (update_all p f xs)
  unfolding update_all
  update_all-get [] i y e = cc
  update_all-get (x ∷ xs) zero y e = (x, refl, ground arith)
  update_all-get (x ∷ xs) (suc i) y e = update_all-get xs i y e

  pub update_all-at :
      (xs : List A) (i : ℕ) (x : A)
      → get_elem? xs i ≡ some x
      → get_elem? (update_all p f xs) i ≡ some (if p x then f x else x)
  unfolding update_all
  update_all-at [] i x e = cc
  update_all-at (y ∷ xs) zero x e = ap (λ z. some (if p z then f z else z)) (some-injective _ _ e)
  update_all-at (y ∷ xs) (suc i) x e = update_all-at xs i x e

module _ {ℓ} {A : Type ℓ} where
  abbrev pub At : ℕ → (A → A) → ℕ → A → A → Type ℓ
  At k f i x y = ((i ≡ k) × (y ≡ f x)) ⊎ ((i ≢ k) × (y ≡ x))

  pub modify-get : (xs : List A) (k : ℕ) (f : A → A) → Pointwise (At k f) xs (modify xs k f)
  modify-get [] k f i y e = cc
  modify-get (x ∷ xs) zero f zero y e = (x, refl, ground arith)
  modify-get (x ∷ xs) zero f (suc i) y e = (y, e, ground arith)
  modify-get (x ∷ xs) (suc k) f zero y e = (x, refl, ground arith)
  modify-get (x ∷ xs) (suc k) f (suc i) y e =
      let (t, g, q) = modify-get xs k f i y e in (t, g, ground arith)

  -- A search that finds nothing has looked at every element.
  pub find_first-none :
      (p : A → Bool) (xs : List A)
      → find_first p xs ≡ none
      → (i : ℕ) (x : A) → get_elem? xs i ≡ some x
      → p x ≡ false
  unfolding find_first
  find_first-none p [] h i x e = cc
  find_first-none p (y ∷ xs) h zero x e = ground arith
  find_first-none p (y ∷ xs) h (suc i) x e = elim (Bool-cases (p y)) [
    | inl t ↦ cc (rw (find_first, t) at h)
    | inr t ↦ find_first-none p xs (rw (find_first, t) at h) i x e
  ]

  -- The loop that stops at the first hit changes nothing, or one element that passes.
  pub update_first-modify :
      (p : A → Bool) (f : A → A) (xs : List A)
      → (update_first p f xs ≡ xs)
        ⊎ ((k : ℕ) × (x : A) × (get_elem? xs k ≡ some x)
            × (p x ≡ true)
            × (update_first p f xs ≡ modify xs k f))
  unfolding update_first
  update_first-modify p f [] = inl refl
  update_first-modify p f (x ∷ xs) = elim (Bool-cases (p x)) [
    | inl h ↦ inr (0, x, refl, h, rw h)
    | inr h ↦ elim (update_first-modify p f xs) [
      | inl e ↦ inl (rw (h, e))
      | inr (k, y, g, t, e) ↦ inr (suc k, y, g, t, rw (h, e))
    ]
  ]

  pub modify-some :
      (xs : List A) (k : ℕ) (f : A → A) {x : A}
      → get_elem? xs k ≡ some x
      → get_elem? (modify xs k f) k ≡ some (f x)
  modify-some [] k f e = cc
  modify-some (x ∷ xs) zero f e = ap (λ o. Option.map f o) e
  modify-some (x ∷ xs) (suc k) f e = modify-some xs k f e

  pub find_first-some :
      (p : A → Bool) (xs : List A) (x : A)
      → find_first p xs ≡ some x
      → (i : ℕ) × (get_elem? xs i ≡ some x) × (p x ≡ true)
  unfolding find_first
  find_first-some p [] x e = cc
  find_first-some p (y ∷ xs) x e = elim (Bool-cases (p y)) [
    | inl h ↦ let q = rw (find_first, h) at e in (0, q, cc (h, ap p (some-injective _ _ q)))
    | inr h ↦ let (i, g, t) = find_first-some p xs x (rw (find_first, h) at e) in (suc i, g, t)
  ]
