-- ===== src/System/Presence.antt =====
-- The broadcasts of the online users and of the bounds of the history, and the heartbeat, keep every
-- invariant of the table.
use esp32_web_chat.Common.{ℕ, zero, suc, Bool, false, List, [], ◌∷◌}
use esp32_web_chat.Common.Int.{ℤ}
use esp32_web_chat.Config.{HistoryBounds}
use esp32_web_chat.Slots.{Slots}
use esp32_web_chat.Heartbeat.{Sweep, sweep}
use esp32_web_chat.Heartbeat.Table.{sweep-IsWellFormed}
use esp32_web_chat.Platform.{
  Platform, AppContext, is_ok, ◌>>=◌, ◌>>◌, done, get_ctx, put_ctx, modify_ctx,
}
use esp32_web_chat.Platform.Rules.{
  Keeps, keeps_rules, Keeps-locked, Keeps-modify_ctx, Keeps-done, Keeps-bind, Keeps-then, Keeps-if,
}
use esp32_web_chat.Presence.{
  add_user, add_users, fill_and_print, build_online_users_payload, broadcast_attempts,
  broadcast_online_users_now, send_online_users_to_client,
}
use esp32_web_chat.Presence.Queue.{
  presence_broadcast_work, claim_presence, broadcast_online_users, sweep_locked, close_all,
  ping_all, after_sweep, heartbeat_sweep_work, claim_sweep, heartbeat_round, start_heartbeat,
  set_presence_pending, set_sweep_pending,
}
use esp32_web_chat.HistoryInfo.{
  add_bounds, read_bounds, build_info_payload, send_info_to_client, broadcast_info,
}
use esp32_web_chat.System.{AllowsTable}
use esp32_web_chat.System.Sends.{
  device_uptime_s-Keeps, add-Keeps, send_text-Keeps, send_error-Keeps, current_timestamp_s-Keeps,
  close_client-Keeps, broadcast-Keeps,
}

module _ (p : Platform) {I : AppContext → Type 0} where
  open p use {Env, Node}

  add_user-Keeps : (s : _) (lists : Node × Node) → Keeps I (add_user p s lists)
  unfolding add_user
  add_user-Keeps s lists = search (keeps_rules, add-Keeps p) depth 14

  add_users-Keeps : (ss : Slots) (lists : Node × Node) → Keeps I (add_users p ss lists)
  unfolding add_users
  add_users-Keeps [] lists = Keeps-done _
  add_users-Keeps (s ∷ ss) lists =
      search (keeps_rules, add_user-Keeps s, add_users-Keeps ss) depth 14

  fill_and_print-Keeps :
      (root to users entries : Node) → Keeps I (fill_and_print p root to users entries)
  unfolding fill_and_print
  fill_and_print-Keeps root to users entries =
      search (keeps_rules, Keeps-locked p, add-Keeps p, add_users-Keeps) depth 14

  pub build_online_users_payload-Keeps : Keeps I (build_online_users_payload p)
  unfolding build_online_users_payload
  build_online_users_payload-Keeps =
      search (keeps_rules, add-Keeps p, current_timestamp_s-Keeps p, fill_and_print-Keeps) depth 20

  pub send_online_users_to_client-Keeps : (fd : ℤ) → Keeps I (send_online_users_to_client p fd)
  unfolding send_online_users_to_client
  send_online_users_to_client-Keeps fd =
      search (keeps_rules, send_text-Keeps p, send_error-Keeps p, build_online_users_payload-Keeps)
        depth 14

  add_bounds-Keeps : (b : HistoryBounds) (root : Node) → Keeps I (add_bounds p b root)
  unfolding add_bounds
  add_bounds-Keeps b root = search (keeps_rules, add-Keeps p) depth 20

  read_bounds-Keeps : Keeps I (read_bounds p)
  unfolding read_bounds
  read_bounds-Keeps = search (keeps_rules, Keeps-locked p)

  build_info_payload-Keeps : (interval : ℕ) → Keeps I (build_info_payload p interval)
  unfolding build_info_payload
  build_info_payload-Keeps interval =
      search
        (keeps_rules, add-Keeps p, current_timestamp_s-Keeps p, add_bounds-Keeps, read_bounds-Keeps)
        depth 24

  pub send_info_to_client-Keeps :
      (interval : ℕ) (fd : ℤ) → Keeps I (send_info_to_client p interval fd)
  unfolding send_info_to_client
  send_info_to_client-Keeps interval fd =
      search (keeps_rules, send_text-Keeps p, send_error-Keeps p, build_info_payload-Keeps) depth 14

module _ (p : Platform) {I : AppContext → Type 0} (t : AllowsTable I) where
  open p use {Env}

  pub broadcast_info-Keeps : (interval : ℕ) → Keeps I (broadcast_info p interval)
  unfolding broadcast_info
  broadcast_info-Keeps interval =
      search (keeps_rules, build_info_payload-Keeps p, broadcast-Keeps p t) depth 14

  broadcast_attempts-Keeps :
      (attempts : ℕ) (closed : Bool) → Keeps I (broadcast_attempts p attempts closed)
  unfolding broadcast_attempts
  broadcast_attempts-Keeps zero closed = Keeps-done _
  broadcast_attempts-Keeps (suc n) closed =
      search
        (
          keeps_rules,
          build_online_users_payload-Keeps p,
          broadcast-Keeps p t,
          broadcast_attempts-Keeps n,
        )
        depth 14

  broadcast_online_users_now-Keeps : Keeps I (broadcast_online_users_now p)
  unfolding broadcast_online_users_now
  broadcast_online_users_now-Keeps = search (keeps_rules, broadcast_attempts-Keeps)

  set_presence-Keeps : (b : Bool) → Keeps {Env = Env} I (modify_ctx (set_presence_pending b))
  set_presence-Keeps b = Keeps-modify_ctx _ λ c h. t.with_flags c b _ _ _ h

  set_sweep-Keeps : (b : Bool) → Keeps {Env = Env} I (modify_ctx (set_sweep_pending b))
  set_sweep-Keeps b = Keeps-modify_ctx _ λ c h. t.with_flags c _ b _ _ h

  pub presence_broadcast_work-Keeps : Keeps I (presence_broadcast_work p)
  unfolding presence_broadcast_work
  presence_broadcast_work-Keeps =
      search (keeps_rules, Keeps-locked p, set_presence-Keeps, broadcast_online_users_now-Keeps)
        depth 14

  claim_presence-Keeps : Keeps I (claim_presence p)
  unfolding claim_presence
  claim_presence-Keeps = search (keeps_rules, Keeps-locked p, set_presence-Keeps) depth 14

  pub broadcast_online_users-Keeps : Keeps I (broadcast_online_users p)
  unfolding broadcast_online_users
  broadcast_online_users-Keeps =
      search
        (
          keeps_rules,
          Keeps-locked p,
          set_presence-Keeps,
          claim_presence-Keeps,
          broadcast_online_users_now-Keeps,
        )
        depth 20

  sweep_locked-Keeps : (interval : ℕ) (now : ℤ) → Keeps I (sweep_locked p interval now)
  unfolding sweep_locked ◌>>=◌ ◌>>◌ get_ctx put_ctx done
  sweep_locked-Keeps interval now = record {
    at = λ w h.
        let ss = (sweep interval w.ctx.last_heartbeat_sweep_s now w.ctx.client_slots).slots in
        t.with_flags (record (w.ctx) { client_slots = ss }) _ false now _
          (t.with_table w.ctx ss h
            (sweep-IsWellFormed interval w.ctx.last_heartbeat_sweep_s now _ (t.table w.ctx h)));
  }

  close_all-Keeps : (fds : List ℤ) → Keeps I (close_all p fds)
  unfolding close_all
  close_all-Keeps [] = Keeps-done _
  close_all-Keeps (fd ∷ fds) = search (keeps_rules, close_client-Keeps p t fd, close_all-Keeps fds)

  ping_all-Keeps : (fds : List ℤ) → Keeps I (ping_all p fds)
  unfolding ping_all
  ping_all-Keeps [] = Keeps-done _
  ping_all-Keeps (fd ∷ fds) = Keeps-bind _ _ (send_text-Keeps p fd _) (λ ret.
      Keeps-if (is_ok ret) _ _ (λ y. ping_all-Keeps fds)
        (λ n.
          Keeps-then _ _ (close_client-Keeps p t fd)
            (Keeps-bind _ _ (ping_all-Keeps fds) (λ rest. Keeps-done _))))

  after_sweep-Keeps : (r : Sweep) → Keeps I (after_sweep p r)
  unfolding after_sweep
  after_sweep-Keeps r =
      search (keeps_rules, close_all-Keeps, ping_all-Keeps, broadcast_online_users-Keeps) depth 14

  pub heartbeat_sweep_work-Keeps : (interval : ℕ) → Keeps I (heartbeat_sweep_work p interval)
  unfolding heartbeat_sweep_work
  heartbeat_sweep_work-Keeps interval =
      search
        (
          keeps_rules,
          Keeps-locked p,
          device_uptime_s-Keeps p,
          sweep_locked-Keeps interval,
          after_sweep-Keeps,
        )
        depth 14

  claim_sweep-Keeps : Keeps I (claim_sweep p)
  unfolding claim_sweep
  claim_sweep-Keeps = search (keeps_rules, Keeps-locked p, set_sweep-Keeps) depth 14

  pub heartbeat_round-Keeps : Keeps I (heartbeat_round p)
  unfolding heartbeat_round
  heartbeat_round-Keeps =
      search (keeps_rules, Keeps-locked p, set_sweep-Keeps, claim_sweep-Keeps) depth 20

  set_start-Keeps :
      (now : ℤ) → Keeps {Env = Env} I (modify_ctx λ c. record c { last_heartbeat_sweep_s = now })
  set_start-Keeps now = Keeps-modify_ctx _ λ c h. t.with_flags c _ _ now _ h

  pub start_heartbeat-Keeps : Keeps I (start_heartbeat p)
  unfolding start_heartbeat
  start_heartbeat-Keeps =
      search (keeps_rules, Keeps-locked p, device_uptime_s-Keeps p, set_start-Keeps) depth 14
