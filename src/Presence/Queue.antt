-- ===== src/Presence/Queue.antt =====
-- The work that is queued on the HTTP server's task: the broadcast of the list of online users and
-- the heartbeat sweep, both of main/src/chat/sessions.c.
use esp32_web_chat.Common.{
  ℕ, ◌||◌, none, some, Bool, true, false, not, List, [], ◌∷◌, codes, if◌then◌else◌,
}
use esp32_web_chat.Common.Int.{ℤ}
use esp32_web_chat.Heartbeat.{Sweep, sweep}
use esp32_web_chat.Platform.{
  Platform, Run, AppContext, client_mutex, presence_broadcast, heartbeat_sweep, is_ok, ◌>>=◌, ◌>>◌,
  done, call, get_ctx, put_ctx, modify_ctx, locked, on_option, on_other_task, device_uptime_s,
}
use esp32_web_chat.Server.{send_text, close_client}
use esp32_web_chat.Presence.{broadcast_online_users_now}

abbrev pub set_presence_pending : Bool → AppContext → AppContext
set_presence_pending b c = record c { presence_broadcast_pending = b }

abbrev pub set_sweep_pending : Bool → AppContext → AppContext
set_sweep_pending b c = record c { heartbeat_sweep_pending = b }

module _ (p : Platform) where
  open p use {Env, current_task, queue_work}

  -- presence_broadcast_work.
  unfoldable pub presence_broadcast_work : Run Env (Unit {0})
  presence_broadcast_work = do
    cleared ← locked p client_mutex tt (modify_ctx (set_presence_pending false))
    closed ← broadcast_online_users_now p
    done tt

  -- Taking the flag: whether the work is to be queued.
  unfoldable pub claim_presence : Run Env Bool
  claim_presence = locked p client_mutex false (do
    ctx ← get_ctx
    if ctx.presence_broadcast_pending
        then done false
        else (do modify_ctx (set_presence_pending true); done true))

  -- `xTaskGetCurrentTaskHandle()`, which changes nothing.
  abbrev pub task_now : Env → ℕ × Env
  task_now e = (current_task e, e)

  -- chat_sessions_broadcast_online_users.
  unfoldable pub broadcast_online_users : Run Env Bool
  broadcast_online_users = do
    ctx ← get_ctx
    task ← call task_now
    if not ctx.server
        then done false
        else if on_other_task p ctx.httpd_task_handle task
        then (do
          should_queue ← claim_presence
          if not should_queue then done false else (do
            ret ← call (queue_work presence_broadcast)
            if is_ok ret then done false else (do
              cleared ← locked p client_mutex tt (modify_ctx (set_presence_pending false))
              done false)))
        else broadcast_online_users_now p

  -- What heartbeat_sweep_work does under the mutex.
  unfoldable pub sweep_locked : ℕ → ℤ → Run Env Sweep
  sweep_locked interval now = do
    ctx ← get_ctx
    let r = sweep interval ctx.last_heartbeat_sweep_s now ctx.client_slots
    put_ctx (record ctx {
      client_slots = r.slots;
      heartbeat_sweep_pending = false;
      last_heartbeat_sweep_s = now;
    })
    done r

  unfoldable pub close_all : List ℤ → Run Env (Unit {0})
  close_all [] = done tt
  close_all (fd ∷ fds) = do close_client p fd; close_all fds

  -- Whether a client could not be pinged, and was closed.
  unfoldable pub ping_all : List ℤ → Run Env Bool
  ping_all [] = done false
  ping_all (fd ∷ fds) = do
    ret ← send_text p fd (codes "{\"type\":\"ping\"}")
    if is_ok ret then ping_all fds else (do close_client p fd; rest ← ping_all fds; done true)

  -- What heartbeat_sweep_work does after the mutex is given back.
  unfoldable pub after_sweep : Sweep → Run Env Bool
  after_sweep r = do
    close_all r.close_fds
    failed ← ping_all r.ping_fds
    if r.changed || failed then broadcast_online_users else done false

  -- heartbeat_sweep_work, for the interval HEARTBEAT_INTERVAL_S.
  unfoldable pub heartbeat_sweep_work : ℕ → Run Env (Unit {0})
  heartbeat_sweep_work interval = do
    now ← device_uptime_s p
    swept ← locked p client_mutex none (do r ← sweep_locked interval now; done (some r))
    on_option swept (done tt) λ r. do closed ← after_sweep r; done tt

  -- Taking the flag: whether a sweep is to be queued.
  unfoldable pub claim_sweep : Run Env Bool
  claim_sweep = locked p client_mutex false (do
    ctx ← get_ctx
    modify_ctx (set_sweep_pending true)
    done (not ctx.heartbeat_sweep_pending))

  -- A round of heartbeat_task, after its delay.
  unfoldable pub heartbeat_round : Run Env (Unit {0})
  heartbeat_round = do
    ctx ← get_ctx
    if not ctx.server then done tt else (do
      should_queue ← claim_sweep
      if not should_queue then done tt else (do
        ret ← call (queue_work heartbeat_sweep)
        if is_ok ret
            then done tt
            else locked p client_mutex tt (modify_ctx (set_sweep_pending false))))

  -- chat_sessions_start_heartbeat, up to the start of the task.
  unfoldable pub start_heartbeat : Run Env (Unit {0})
  start_heartbeat =
      locked p client_mutex tt
        (do now ← device_uptime_s p; modify_ctx λ c. record c { last_heartbeat_sweep_s = now })
