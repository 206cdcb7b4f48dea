-- ===== src/Server/Distinct.antt =====
-- A broadcast goes to each connection of a well-formed client table once.
use mathlib.Core.Option.{some-injective}
use esp32_web_chat.Common.{
  ℕ, zero, suc, ◌≡◌, ◌≢◌, refl, sym, subst, inl, inr, Bool, true, false, ◌&&◌, some, List, [], ◌∷◌,
  Listed, get_elem?, arith, if◌then◌else◌,
}
use esp32_web_chat.Common.Int.{ℤ, eqb_ℤ, eqb_ℤ_refl}
use esp32_web_chat.Config.{ClientSlot}
use esp32_web_chat.Slots.{Slots, is_open}
use esp32_web_chat.Slots.WellFormed.{IsWellFormed, share_fd}
use esp32_web_chat.Server.{broadcast_fds}

-- No connection stands twice.
abbrev pub Distinct : List ℤ → Type 0
Distinct [] = Unit
Distinct (fd ∷ fds) = (Listed fd fds → ⊥) × Distinct fds

abbrev OpenAt : ℤ → Slots → Type 0
OpenAt fd ss =
    (i : ℕ) × (s : ClientSlot) × (get_elem? ss i ≡ some s) × (is_open s ≡ true) × (s.fd ≡ fd)

later-OpenAt : (fd : ℤ) (s : ClientSlot) (ss : Slots) → OpenAt fd ss → OpenAt fd (s ∷ ss)
later-OpenAt fd s ss (i, t, g, o, q) = (suc i, t, g, o, q)

cons-OpenAt :
    (fd : ℤ) (s : ClientSlot) (ss : Slots) (rest : List ℤ) (b : Bool)
    → (is_open s && s.joined) ≡ b
    → (Listed fd rest → OpenAt fd ss)
    → Listed fd (if b then s.fd ∷ rest else rest)
    → OpenAt fd (s ∷ ss)
cons-OpenAt fd s ss rest true e ih (inl q) = (0, s, refl, ground (arith, e), sym q)
cons-OpenAt fd s ss rest true e ih (inr l) = later-OpenAt fd s ss (ih l)
cons-OpenAt fd s ss rest false e ih l = later-OpenAt fd s ss (ih l)

broadcast_fds-OpenAt : (fd : ℤ) (ss : Slots) → Listed fd (broadcast_fds ss) → OpenAt fd ss
unfolding broadcast_fds
broadcast_fds-OpenAt fd [] l = absurd l
broadcast_fds-OpenAt fd (s ∷ ss) l =
    cons-OpenAt fd s ss (broadcast_fds ss) (is_open s && s.joined) refl (broadcast_fds-OpenAt fd ss)
      l

-- No two open slots are of one connection.
abbrev Apart : Slots → Type 0
Apart ss =
    (i j : ℕ) (s t : ClientSlot)
    → i ≢ j
    → get_elem? ss i ≡ some s
    → get_elem? ss j ≡ some t
    → share_fd s t ≡ false

tail-Apart : (s : ClientSlot) (ss : Slots) → Apart (s ∷ ss) → Apart ss
tail-Apart s ss h i j x y n = h (suc i) (suc j) x y (λ q. n (omega (arith, q)))

head_alone :
    (s : ClientSlot) (ss : Slots)
    → Apart (s ∷ ss)
    → is_open s ≡ true
    → Listed s.fd (broadcast_fds ss)
    → ⊥
head_alone s ss h o l =
    let (i, t, g, o', q) = broadcast_fds-OpenAt s.fd ss l in
    let f = h 0 (suc i) s t (λ e. absurd (omega (arith, e))) refl g in
    absurd
      (ground (arith, o, o', f, subst (λ (x : ℤ). eqb_ℤ s.fd x ≡ true) (sym q) (eqb_ℤ_refl s.fd)))

cons-Distinct :
    (fd : ℤ) (fds : List ℤ) (b : Bool)
    → (b ≡ true → Listed fd fds → ⊥)
    → Distinct fds
    → Distinct (if b then fd ∷ fds else fds)
cons-Distinct fd fds true n d = (n refl, d)
cons-Distinct fd fds false n d = d

distinct : (ss : Slots) → Apart ss → Distinct (broadcast_fds ss)
unfolding broadcast_fds
distinct [] h = tt
distinct (s ∷ ss) h =
    cons-Distinct s.fd (broadcast_fds ss) (is_open s && s.joined)
      (λ e. head_alone s ss h (ground (arith, e))) (distinct ss (tail-Apart s ss h))

pub broadcast_fds-Distinct : (ss : Slots) → IsWellFormed ss → Distinct (broadcast_fds ss)
broadcast_fds-Distinct ss w = distinct ss (λ i j s t n g g'. ground (arith, w.apart i j s t n g g'))

-- A client with an open slot that has joined is sent to.
pub broadcast_fds-Listed :
    (ss : Slots) (i : ℕ) (s : ClientSlot)
    → get_elem? ss i ≡ some s
    → (is_open s && s.joined) ≡ true
    → Listed s.fd (broadcast_fds ss)
unfolding broadcast_fds
broadcast_fds-Listed [] i s g e = absurd (ground (arith, g))
broadcast_fds-Listed (x ∷ ss) zero s g e =
    let q = some-injective _ _ g in
    subst (λ (y : ClientSlot). Listed y.fd (broadcast_fds (x ∷ ss))) q
      (rw (subst (λ (y : ClientSlot). (is_open y && y.joined) ≡ true) (sym q) e) (inl refl))
broadcast_fds-Listed (x ∷ ss) (suc i) s g e =
    cons_listed (is_open x && x.joined) (broadcast_fds-Listed ss i s g e)
  where
    cons_listed :
        (b : Bool)
        → Listed s.fd (broadcast_fds ss)
        → Listed s.fd (if b then x.fd ∷ broadcast_fds ss else broadcast_fds ss)
    cons_listed true l = inr l
    cons_listed false l = l
