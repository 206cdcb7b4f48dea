-- ===== src/Takeover.antt =====
-- chat_sessions_update_identity of main/src/chat/sessions.c with its lock, and the sessions that it
-- replaces.
pub mod Invariant
use Prim.Native.String.{String}
use esp32_web_chat.Common.{Bool, true, false, Option, none, some, List, [], ◌∷◌, Bytes}
use esp32_web_chat.Common.Int.{ℤ, pos}
use esp32_web_chat.Slots
use esp32_web_chat.Slots.{Updated, Slots, pick_target, scan_slots}
use esp32_web_chat.Platform.{
  Platform, Run, World, AppContext, client_mutex, EspErr, ◌>>=◌, ◌>>◌, done, call, tell, get_ctx,
  put_ctx, locked, device_uptime_s,
}
use esp32_web_chat.Server.{send_error, close_client}

module _ (p : Platform) where
  open p use {Env}

  -- The loop over `stale_fds` after the mutex is given back.
  unfoldable pub replace_sessions : List ℤ → Run Env (Unit {0})
  unfolding send_error close_client
  replace_sessions [] = done tt
  replace_sessions (fd ∷ fds) = do
    notified ← send_error p fd "session_replaced" "This user connected from another browser session"
    close_client p fd
    replace_sessions fds

  -- What is done under the mutex. The clock is read where there is a slot to fill.
  unfoldable pub update_locked : ℤ → Option Bytes → Option Bytes → Run Env (Bool × List ℤ)
  unfolding device_uptime_s
  update_locked fd user name = do
    ctx ← get_ctx
    elim (pick_target (scan_slots fd 0 none none ctx.client_slots)) [
      | none ↦ done (false, [])
      | some target ↦ do
        now ← device_uptime_s p
        let r = Slots.update_identity now fd user name ctx.client_slots
        ctx' ← get_ctx
        put_ctx (record ctx' { client_slots = r.slots })
        done (r.updated, r.stale_fds)
    ]

  unfoldable pub update_identity : ℤ → Option Bytes → Option Bytes → Run Env Bool
  unfolding update_locked replace_sessions
  update_identity fd user name = do
    r ← locked p client_mutex (false, []) (update_locked fd user name)
    replace_sessions r.1
    done r.0
