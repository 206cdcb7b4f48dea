-- ===== src/TimeSync/Mean.antt =====
-- The mean of a cluster lies in its window.
use native.Mathlib.Nat.{le-div_iff_mul-le, div-le_of_le-mul}
use esp32_web_chat.Common.{
  ℕ, suc, ◌+◌, ◌*◌, ◌/◌, ◌≤◌, ◌<◌, ◌≡◌, inl, inr, true, List, [], ◌∷◌, arith, if◌then◌else◌,
  Bool-cases, ◌∙◌,
}
use esp32_web_chat.Common.Int.{ℤ, pos, negsuc, pos_part, neg_part, ◌+ℤ◌, ◌≤ℤ◌, div_ℤ, +ℤ_parts}
use esp32_web_chat.Config.{time_sync_tolerance_s}
use esp32_web_chat.TimeSync.{Cluster, no_cluster, in_window, gather}

-- `n` times `a` is at most `b`, and at least.
abbrev pub TimesLe : ℕ → ℤ → ℤ → Type 0
TimesLe n a b = n * pos_part a + neg_part b ≤ pos_part b + n * neg_part a

abbrev pub LeTimes : ℤ → ℕ → ℤ → Type 0
LeTimes b n a = pos_part b + n * neg_part a ≤ n * pos_part a + neg_part b

quotient_low : (a t n : ℕ) → 0 < n → n * a ≤ t → a ≤ t / n
quotient_low a t n h l = (le-div_iff_mul-le h).1 (omega arith)

quotient_high : (a t n : ℕ) → 0 < n → t ≤ n * a → t / n ≤ a
quotient_high a t n h l = div-le_of_le-mul n l

-- C's division of a sum by the number of its terms stays between their bounds.
div_ℤ_low : (a t : ℤ) (n : ℕ) → 0 < n → TimesLe n a t → a ≤ℤ div_ℤ t n
unfolding div_ℤ
div_ℤ_low (pos a) (pos t) n h l = omega (arith, quotient_low a t n h (omega arith))
div_ℤ_low (pos a) (negsuc t) n h l = absurd (omega arith)
div_ℤ_low (negsuc a) (pos t) n h l = omega arith
div_ℤ_low (negsuc a) (negsuc t) n h l =
    ground (arith, quotient_high (suc a) (suc t) n h (omega arith))

div_ℤ_high : (a t : ℤ) (n : ℕ) → 0 < n → LeTimes t n a → div_ℤ t n ≤ℤ a
unfolding div_ℤ
div_ℤ_high (pos a) (pos t) n h l = omega (arith, quotient_high a t n h (omega arith))
div_ℤ_high (pos a) (negsuc t) n h l = ground arith
div_ℤ_high (negsuc a) (pos t) n h l = absurd (grind arith)
div_ℤ_high (negsuc a) (negsuc t) n h l =
    ground (arith, quotient_low (suc a) (suc t) n h (omega arith))

-- The sum of a cluster lies between its size times the window's ends.
pub record Inside (lower upper : ℤ) (c : Cluster) : Type 0 where
  pub low : TimesLe c.count lower c.total
  pub high : LeTimes c.total c.count upper

module _ (lower upper : ℤ) where
  Inside-add :
      (c : Cluster) (o : ℤ)
      → Inside lower upper c
      → lower ≤ℤ o
      → o ≤ℤ upper
      → Inside lower upper (record { total = c.total +ℤ o; count = c.count + 1 })
  Inside-add c o i l u = record {
    low = omega (arith, +ℤ_parts c.total o, i.low);
    high = omega (arith, +ℤ_parts c.total o, i.high);
  }

  -- The mean of a cluster lies between the window's ends.
  pub Inside-mean :
      (c : Cluster)
      → Inside lower upper c
      → 0 < c.count
      → (lower ≤ℤ div_ℤ c.total c.count) × (div_ℤ c.total c.count ≤ℤ upper)
  Inside-mean c i h =
      (div_ℤ_low lower c.total c.count h i.low, div_ℤ_high upper c.total c.count h i.high)

window_bounds :
    (lower o : ℤ)
    → in_window lower o ≡ true
    → (lower ≤ℤ o) × (o ≤ℤ lower +ℤ pos time_sync_tolerance_s)
window_bounds lower o h = ground arith

pub gather-Inside :
    (lower : ℤ) (c : Cluster) (os : List ℤ)
    → Inside lower (lower +ℤ pos time_sync_tolerance_s) c
    → Inside lower (lower +ℤ pos time_sync_tolerance_s) (gather lower c os)
unfolding gather
gather-Inside lower c [] i = i
gather-Inside lower c (o ∷ os) i = elim (Bool-cases (in_window lower o)) [
  | inl t ↦
      let (l, u) = window_bounds lower o t in
      rw t (
        gather-Inside lower (record { total = c.total +ℤ o; count = c.count + 1 }) os
          (Inside-add lower (lower +ℤ pos time_sync_tolerance_s) c o i l u))
  | inr f ↦ rw f (gather-Inside lower c os i)
]

pub no_cluster-Inside : (lower upper : ℤ) → Inside lower upper no_cluster
no_cluster-Inside lower upper = omega arith

-- How many offsets lie in a window.
abbrev pub count_in : ℤ → List ℤ → ℕ
count_in lower [] = 0
count_in lower (o ∷ os) = if in_window lower o then suc (count_in lower os) else count_in lower os

pub gather-count :
    (lower : ℤ) (c : Cluster) (os : List ℤ)
    → (gather lower c os).count ≡ c.count + count_in lower os
unfolding gather
gather-count lower c [] = omega arith
gather-count lower c (o ∷ os) = elim (Bool-cases (in_window lower o)) [
  | inl t ↦
      rw (gather, t)
        (gather-count lower (record { total = c.total +ℤ o; count = c.count + 1 }) os ∙ omega arith)
  | inr f ↦ rw (gather, f) (gather-count lower c os)
]
