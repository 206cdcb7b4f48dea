-- ===== src/Clock.antt =====
-- current_timestamp_s of main/src/common/utils.c.
use esp32_web_chat.Common.{Bool, true, false, ◌&&◌, Option, none, some, if◌then◌else◌}
use esp32_web_chat.Common.Int.{ℤ, pos, ◌+ℤ◌, leb_ℤ}
use esp32_web_chat.Config.{valid_epoch_start_s, valid_epoch_end_s}
use esp32_web_chat.TimeSync.{consensus_offset_s}
use esp32_web_chat.Platform.{
  Platform, Run, client_mutex, ◌>>=◌, ◌>>◌, done, call, tell, get_ctx, device_uptime_s,
}

-- `VALID_EPOCH_START_S <= t && t <= VALID_EPOCH_END_S`.
abbrev pub is_valid_epoch : ℤ → Bool
is_valid_epoch t = leb_ℤ (pos valid_epoch_start_s) t && leb_ℤ t (pos valid_epoch_end_s)

module _ (p : Platform) where
  open p use {Env, take_20_ms, give, epoch_s}

  -- consensus_offset_s: no offset where the mutex is not free within 20 ms.
  unfoldable pub read_consensus : Run Env (Option ℤ)
  read_consensus = do
    got ← call (take_20_ms client_mutex)
    elim got [
      | false ↦ done none
      | true ↦ do
        ctx ← get_ctx
        tell (give client_mutex)
        done (consensus_offset_s ctx.client_slots)
    ]

  -- `uptime + offset` if that is an epoch time, the uptime otherwise.
  abbrev pub with_offset : ℤ → Option ℤ → ℤ
  with_offset uptime none = uptime
  with_offset uptime (some offset) =
      if is_valid_epoch (uptime +ℤ offset) then uptime +ℤ offset else uptime

  unfoldable pub current_timestamp_s : Run Env ℤ
  unfolding read_consensus device_uptime_s
  current_timestamp_s = do
    now ← call epoch_s
    elim (is_valid_epoch now) [
      | true ↦ done now
      | false ↦ do
        uptime ← device_uptime_s p
        offset ← read_consensus
        done (with_offset uptime offset)
    ]
