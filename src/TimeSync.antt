-- ===== src/TimeSync.antt =====
-- The clock consensus of main/src/common/utils.c: an offset between the device's uptime and the
-- time of day on which two thirds of the clients agree. Offsets are int64_t values far from the
-- ends of their range (they come from checked epoch times), so they are integers here.
pub mod Mean
pub mod Majority
use esp32_web_chat.Common.{
  ℕ, zero, suc, ◌+◌, ◌*◌, ◌/◌, Bool, true, false, ◌&&◌, Option, none, some, List, [], ◌∷◌,
  if◌then◌else◌, leb, ltb, ◌==◌, length,
}
use esp32_web_chat.Common.Int.{ℤ, pos, ◌+ℤ◌, leb_ℤ, div_ℤ}
use esp32_web_chat.Config.{ClientSlot, time_sync_tolerance_s}
use esp32_web_chat.Slots.{Slots}

-- The first loop of consensus_offset_s.
unfoldable pub offsets : Slots → List ℤ
offsets [] = []
offsets (s ∷ ss) =
    if s.active && s.joined && s.time_offset_valid then s.time_offset_s ∷ offsets ss else offsets ss

-- time_sync_threshold: two thirds, rounded up.
unfoldable pub time_sync_threshold : ℕ → ℕ
time_sync_threshold count = if leb count 0 then 0 else (count * 2 + 2) / 3

pub record Cluster : Type 0 where
  pub total : ℤ
  pub count : ℕ

abbrev pub no_cluster : Cluster
no_cluster = record { total = pos 0; count = 0 }

-- `offsets[j] >= lower && offsets[j] <= upper`.
abbrev pub in_window : ℤ → ℤ → Bool
in_window lower o = leb_ℤ lower o && leb_ℤ o (lower +ℤ pos time_sync_tolerance_s)

-- The loop over `j`.
unfoldable pub gather : ℤ → Cluster → List ℤ → Cluster
unfolding ◌+ℤ◌
gather lower c [] = c
gather lower c (o ∷ os) =
    gather lower
      (if in_window lower o then record { total = c.total +ℤ o; count = c.count + 1 } else c) os

-- `cluster_count >= required && cluster_count > selected_count`.
abbrev pub prefer : ℕ → Cluster → Cluster → Cluster
prefer required selected c =
    if leb required c.count && ltb selected.count c.count then c else selected

-- The loop over `i`; `found` is that the selected cluster is not empty.
unfoldable pub select : ℕ → List ℤ → Cluster → List ℤ → Cluster
unfolding gather
select required all selected [] = selected
select required all selected (lower ∷ rest) =
    select required all (prefer required selected (gather lower no_cluster all)) rest

-- consensus_offset_s on the offsets that it collects.
unfoldable pub consensus : List ℤ → Option ℤ
unfolding time_sync_threshold select div_ℤ
consensus os =
    let required = time_sync_threshold (length os) in
    let selected = select required os no_cluster os in
    if required == 0
    then none
    else if selected.count == 0
    then none
    else some (div_ℤ selected.total selected.count)

unfoldable pub consensus_offset_s : Slots → Option ℤ
unfolding offsets consensus
consensus_offset_s ss = consensus (offsets ss)
