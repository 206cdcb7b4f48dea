-- ===== src/Sessions.antt =====
-- The functions of main/src/chat/sessions.c that hold `client_mutex` from start to end: each takes
-- the mutex, does to the table what Slots says, and gives it back. Where the mutex is not given
-- they answer as the C code does and leave the table alone.
use esp32_web_chat.Common.{
  if◌then◌else◌, not, ◌||◌, Bool, true, false, ◌&&◌, is_none, Option, Bytes,
}
use esp32_web_chat.Common.Int.{ℤ, pos, ◌-ℤ◌}
use esp32_web_chat.Common.Scan.{find_first, any_of}
use esp32_web_chat.Config.{valid_epoch_start_s, valid_epoch_end_s}
use esp32_web_chat.Slots
use esp32_web_chat.Slots.{Slots, set_time_offset, IdentityStatus, not_joined, has_fd, is_free}
use esp32_web_chat.Platform.{
  Platform, Run, on_option, modify_ctx, client_mutex, ◌>>=◌, ◌>>◌, done, get_ctx, put_ctx, locked,
  device_uptime_s,
}

module _ (p : Platform) where
  open p use {Env, Node, get_item, value_double, is_number, is_below, is_above, truncate}

  -- A function that updates the table and returns a flag.
  abbrev pub on_table : (Slots → Bool × Slots) → Run Env Bool
  on_table f = do
    ctx ← get_ctx
    let r = f ctx.client_slots
    put_ctx (record ctx { client_slots = r.1 })
    done r.0

  unfoldable pub mark_closing : ℤ → Run Env Bool
  mark_closing fd = locked p client_mutex false (on_table (Slots.mark_closing fd))

  unfoldable pub remove_by_fd : ℤ → Run Env Bool
  remove_by_fd fd = locked p client_mutex false (on_table (Slots.remove_by_fd fd))

  unfoldable pub mark_alive : ℤ → Run Env Bool
  mark_alive fd = locked p client_mutex false (on_table (Slots.mark_alive fd))

  unfoldable pub is_joined : ℤ → Run Env Bool
  is_joined fd =
      locked p client_mutex false (do ctx ← get_ctx; done (Slots.is_joined fd ctx.client_slots))

  unfoldable pub check_identity : ℤ → Option Bytes → Run Env IdentityStatus
  check_identity fd user =
      locked p client_mutex not_joined
        (do ctx ← get_ctx; done (Slots.check_identity fd user ctx.client_slots))

  -- The second loop of chat_sessions_ensure_slot runs, and finds a free slot.
  abbrev pub claims_slot : ℤ → Slots → Bool
  claims_slot fd ss = is_none (find_first (has_fd fd) ss) && any_of is_free ss

  -- chat_sessions_ensure_slot. The clock is read where a free slot is taken.
  unfoldable pub ensure_slot : ℤ → Run Env Bool
  unfolding device_uptime_s
  ensure_slot fd = locked p client_mutex false (do
    ctx ← get_ctx
    elim (claims_slot fd ctx.client_slots) [
      | true ↦ do now ← device_uptime_s p; on_table (Slots.ensure_slot fd now)
      | false ↦ on_table (Slots.ensure_slot fd (pos 0))
    ])

  -- chat_sessions_update_time_sample; the object is never NULL.
  unfoldable pub update_time_sample : ℤ → Node → Run Env (Unit {0})
  unfolding ◌-ℤ◌
  update_time_sample fd root = on_option (get_item root "timestamp") (done tt) λ timestamp.
      let t = value_double timestamp in
      if not (is_number timestamp) || is_below t valid_epoch_start_s || is_above t valid_epoch_end_s
      then done tt
      else (do
        uptime ← device_uptime_s p
        locked p client_mutex tt (
            modify_ctx λ c. record c {
              client_slots = set_time_offset fd (truncate t -ℤ uptime) c.client_slots;
            }))
