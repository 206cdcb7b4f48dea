-- ===== src/TimeSync/Majority.antt =====
-- What consensus_offset_s answers: the offset of a two-thirds majority, or nothing.
use esp32_web_chat.Common.{
  ℕ, ◌*◌, ◌≤◌, ◌<◌, ◌≡◌, refl, sym, ◌∙◌, subst, ap, ◌⊎◌, inl, inr, true, false, ◌&&◌, some, List,
  [], ◌∷◌, arith, Bool-cases, dec_lt, length, leb, ltb, ◌==◌,
}
use native.Mathlib.Nat.{le_trans}
use mathlib.Core.Option.{some-injective}
use esp32_web_chat.Common.Int.{ℤ, pos, ◌+ℤ◌, ◌≤ℤ◌, div_ℤ}
use esp32_web_chat.Config.{time_sync_tolerance_s}
use esp32_web_chat.TimeSync.{
  Cluster, no_cluster, gather, prefer, select, consensus, time_sync_threshold,
}
use esp32_web_chat.TimeSync.Mean.{
  Inside, Inside-mean, gather-Inside, no_cluster-Inside, count_in, gather-count,
}

abbrev pub OneOf : ℤ → List ℤ → Type 0
OneOf o [] = ⊥
OneOf o (x ∷ xs) = (o ≡ x) ⊎ OneOf o xs

-- What is selected is a cluster round one of the offsets, and large enough.
record Chosen (required : ℕ) (all seen : List ℤ) (c : Cluster) : Type 0 where
  lower : ℤ
  one : OneOf lower seen
  made : c ≡ gather lower no_cluster all
  enough : required ≤ c.count

Chosen-weaken :
    (required : ℕ) (all seen : List ℤ) (x : ℤ) (c : Cluster)
    → Chosen required all seen c
    → Chosen required all (x ∷ seen) c
Chosen-weaken required all seen x c h = record {
  lower = h.lower;
  one = inr h.one;
  made = h.made;
  enough = h.enough;
}

prefer-taken :
    (required : ℕ) (s c : Cluster)
    → (leb required c.count && ltb s.count c.count) ≡ true
    → prefer required s c ≡ c
prefer-taken required s c t = rw t

prefer-keeps : (required : ℕ) (s c : Cluster) → s.count ≤ (prefer required s c).count
prefer-keeps required s c = ground arith

prefer-takes :
    (required : ℕ) (s c : Cluster) → required ≤ c.count → c.count ≤ (prefer required s c).count
prefer-takes required s c h = ground arith

select-origin :
    (required : ℕ) (all : List ℤ) (selected : Cluster) (rest : List ℤ)
    → (select required all selected rest ≡ selected)
      ⊎ Chosen required all rest (select required all selected rest)
unfolding select
select-origin required all selected [] = inl refl
select-origin required all selected (x ∷ rest) =
    elim (select-origin required all (prefer required selected (gather x no_cluster all)) rest) [
      | inr c ↦ inr (Chosen-weaken required all rest x _ c)
      | inl e ↦
          elim (Bool-cases (
            leb required (gather x no_cluster all).count
            && ltb selected.count (gather x no_cluster all).count)) [
              | inl t ↦ inr (record {
                lower = x;
                one = inl refl;
                made = e ∙ prefer-taken required selected _ t;
                enough =
                    subst (λ (k : Cluster). required ≤ k.count)
                      (sym (e ∙ prefer-taken required selected _ t)) (ground arith);
              })
              | inr f ↦ inl (e ∙ rw f)
            ]
    ]

-- The selected cluster is at least as large as every one that is large enough.
select-largest :
    (required : ℕ) (all : List ℤ) (selected : Cluster) (rest : List ℤ)
    → (selected.count ≤ (select required all selected rest).count)
      × ((x : ℤ)
          → OneOf x rest
          → required ≤ (gather x no_cluster all).count
          → (gather x no_cluster all).count ≤ (select required all selected rest).count)
unfolding select
select-largest required all selected [] = (omega arith, λ x h. absurd h)
select-largest required all selected (x ∷ rest) =
    let c = gather x no_cluster all in
    let (a, b) = select-largest required all (prefer required selected c) rest in
    (
      le_trans (prefer-keeps required selected c) a,
      λ y h. elim h [
        | inl e ↦ rw e (λ r. le_trans (prefer-takes required selected c r) a)
        | inr k ↦ b y k
      ],
    )

-- A majority: two thirds of the offsets lie in the window from `lower` on.
abbrev pub IsMajority : ℤ → List ℤ → Type 0
IsMajority lower os = 2 * length os ≤ 3 * count_in lower os

-- The consensus, where there is one, lies in the 120-second window of an offset that holds at
-- least two thirds of all offsets, and no other offset's window holds more.
pub record Agreed (os : List ℤ) (r : ℤ) : Type 0 where
  pub lower : ℤ
  pub one : OneOf lower os
  pub majority : IsMajority lower os
  pub largest : (x : ℤ) → OneOf x os → count_in x os ≤ count_in lower os
  pub from_low : lower ≤ℤ r
  pub to_high : r ≤ℤ lower +ℤ pos time_sync_tolerance_s

threshold_lem : (n : ℕ) → 2 * n ≤ 3 * time_sync_threshold n
unfolding time_sync_threshold
threshold_lem n = ground arith

-- No more than two thirds, rounded up, are required.
threshold_le : (n k : ℕ) → 2 * n ≤ 3 * k → time_sync_threshold n ≤ k
unfolding time_sync_threshold
threshold_le n k h = ground arith

OneOf-length : (x : ℤ) (os : List ℤ) → OneOf x os → 0 < length os
OneOf-length x [] h = absurd h
OneOf-length x (o ∷ os) h = omega arith

-- A consensus lies in the 120-second window of one of the offsets whose window holds at least two
-- thirds of all offsets, and no other offset's window holds more.
pub consensus-Agreed : (os : List ℤ) (r : ℤ) → consensus os ≡ some r → Agreed os r
unfolding consensus
consensus-Agreed os r e = elim (Bool-cases (required == 0)) [
  | inl t ↦ cc (rw (consensus, t) at e)
  | inr f ↦ elim (Bool-cases (sel.count == 0)) [
    | inl t ↦ cc (rw (consensus, f, t) at e)
    | inr g ↦ elim (select-origin required os no_cluster os) [
      | inl k ↦ absurd (clash (ap (λ (c : Cluster). c.count) k) g)
      | inr ch ↦ agreed ch (ground arith) (some-injective _ _ (rw (consensus, f, g) at e))
    ]
  ]
]
  where
    required : ℕ
    required = time_sync_threshold (length os)

    sel : Cluster
    sel = select required os no_cluster os

    clash : sel.count ≡ 0 → (sel.count == 0) ≡ false → ⊥
    clash k g = ground arith

    agreed : Chosen required os os sel → 0 < sel.count → div_ℤ sel.total sel.count ≡ r → Agreed os r
    agreed ch pos_count q =
        let n : sel.count ≡ count_in ch.lower os =
          ap (λ (c : Cluster). c.count) ch.made
          ∙ gather-count ch.lower no_cluster os
          ∙ omega arith in
        let (a, b) =
          Inside-mean ch.lower (ch.lower +ℤ pos time_sync_tolerance_s) sel
            (subst (Inside ch.lower (ch.lower +ℤ pos time_sync_tolerance_s)) (sym ch.made)
              (gather-Inside ch.lower no_cluster os (no_cluster-Inside ch.lower _)))
            pos_count in
        record {
          lower = ch.lower;
          one = ch.one;
          majority = omega (arith, threshold_lem (length os), ch.enough, n);
          largest = λ x h. elim (dec_lt (count_in x os) required) [
            | yes l ↦ omega (arith, ch.enough, n)
            | no l ↦ omega (
              arith,
              (select-largest required os no_cluster os).1 x h
                  (omega (arith, gather-count x no_cluster os)),
              gather-count x no_cluster os,
              n,
            )
          ];
          from_low = subst (λ z. ch.lower ≤ℤ z) q a;
          to_high = subst (λ z. z ≤ℤ ch.lower +ℤ pos time_sync_tolerance_s) q b;
        }

-- There is a consensus whenever the window of some offset holds two thirds of the offsets.
pub consensus_exists :
    (os : List ℤ) (x : ℤ) → OneOf x os → IsMajority x os → (r : ℤ) × (consensus os ≡ some r)
unfolding consensus
consensus_exists os x h m =
    let required : ℕ = time_sync_threshold (length os) in
    let sel : Cluster = select required os no_cluster os in
    let n : 0 < length os = OneOf-length x os h in
    let c = gather-count x no_cluster os in
    let big =
      (select-largest required os no_cluster os).1 x h
        (omega (arith, threshold_le (length os) (count_in x os) m, c)) in
    let f : (required == 0) ≡ false = ground (arith, threshold_lem (length os)) in
    let g : (sel.count == 0) ≡ false = ground (arith, big, c) in
    (div_ℤ sel.total sel.count, rw (consensus, f, g))
