-- ===== src/System/Reach.antt =====
-- Every state that the program reaches after the boot keeps the invariant.
use esp32_web_chat.Common.{
  ℕ, zero, suc, ◌≡◌, ◌≤◌, refl, sym, subst, ap, ◌∙◌, ◌⊎◌, inl, inr, true, Bytes, some, [], arith,
  get_elem?, replicate, length-replicate,
}
use esp32_web_chat.Config.{Config, ClientSlot, max_safe_id}
use esp32_web_chat.Slots.{zero_slot}
use esp32_web_chat.Slots.WellFormed.{IsWellFormed, SlotOk}
use esp32_web_chat.History.{no_message}
use esp32_web_chat.Platform.{
  Platform, World, AppContext, Work, presence_broadcast, heartbeat_sweep, ◌>>=◌, ◌>>◌, modify_ctx,
  put_ctx,
}
use esp32_web_chat.Platform.Rules.{Keeps, keeps_rules, Keeps-bind}
use esp32_web_chat.IdStore.{IdState, fresh_state, boot_state, load}
use esp32_web_chat.IdStore.Keeps.{load-Quiet, load-state, boot_state-safe}
use esp32_web_chat.Settings
use esp32_web_chat.Settings.Valid.{Fits, load-IsUsable}
use esp32_web_chat.Boot.{
  zero_context, adopt_ids, create_mutexes, init_flash, load_state, start_tasks, start_up, app_main,
  run_work, perform, Event, handshake, frame, session_closed, settings_post, settings_read,
  unknown_page, asset_read, queued, heartbeat,
}
use esp32_web_chat.System.{
  IsSystemOk, IsStoreOk, IsSystemOk-AllowsTable, IsSystemOk-AllowsStore, IsSystemOk-AllowsSettings,
}
use esp32_web_chat.System.Presence.{
  presence_broadcast_work-Keeps, heartbeat_sweep_work-Keeps, heartbeat_round-Keeps,
}
use esp32_web_chat.Board.{Board, while_running}
use esp32_web_chat.Softap.{softap_start}
use esp32_web_chat.Http.Pages.{Asset}
use esp32_web_chat.System.Boot.{
  Running-while, Keeps-while_running, create_mutexes-Keeps, softap_start-Keeps, start_tasks-Keeps,
  settings_get_handler-Keeps, redirect_to_root_handler-Keeps, asset_get_handler-Keeps,
}
use esp32_web_chat.System.Frames.{
  pre_handshake-Keeps, session_close_handler-Keeps, chat_ws_handler-Keeps,
}
use esp32_web_chat.System.Requests.{settings_post_handler-Keeps}

replicate-get : (n : ℕ) (s t : ClientSlot) (i : ℕ) → get_elem? (replicate n s) i ≡ some t → t ≡ s
replicate-get zero s t i e = absurd (ground (arith, e))
replicate-get (suc n) s t zero e = cc
replicate-get (suc n) s t (suc i) e = replicate-get n s t i e

zero_table-IsWellFormed : (n : ℕ) → IsWellFormed (replicate n zero_slot)
zero_table-IsWellFormed n = record {
  each = λ i s g. subst SlotOk (sym (replicate-get n zero_slot s i g)) zero_slot-SlotOk;
  apart = λ i j s t d g h. rw (replicate-get n zero_slot s i g) refl;
}
  where
    zero_slot-SlotOk : SlotOk zero_slot
    zero_slot-SlotOk = record {
      joined_open = λ e. absurd (ground (arith, e));
      joined_named = refl;
      closing_active = λ e. absurd (ground (arith, e));
    }

-- The ring is empty, and the counter is what loading gave.
fresh-IsStoreOk :
    (cfg : Config) (st : IdState)
    → 1 ≤ cfg.max_messages
    → st.current_id ≤ max_safe_id
    → st.boot_start_id ≤ max_safe_id
    → IsStoreOk (adopt_ids st (zero_context cfg)).messages
fresh-IsStoreOk cfg st room c b = record {
  history = [];
  holds = record {
    inside = omega (arith, length-replicate {0} cfg.max_messages no_message);
    gap = cfg.max_messages;
    lo = st.current_id;
    order = refl;
    run = refl;
  };
  empty_or_loaded = inr refl;
  counter_safe = c;
  boot_safe = b;
}

module _ (p : Platform) (cfg : Config) where
  open p use {Env}

  run_work-Keeps : (work : Work) → Keeps IsSystemOk (run_work p cfg work)
  unfolding run_work
  run_work-Keeps presence_broadcast = presence_broadcast_work-Keeps p IsSystemOk-AllowsTable
  run_work-Keeps heartbeat_sweep =
      heartbeat_sweep_work-Keeps p IsSystemOk-AllowsTable cfg.heartbeat_interval_s

module _ (p : Platform) (cfg : Config) (fits : Fits p) (room : 1 ≤ cfg.max_messages) where
  open p use {Env}

  load_state-IsSystemOk :
      (w : World Env) → w.ctx ≡ zero_context cfg → IsSystemOk (load_state p cfg w).1.ctx
  unfolding load_state ◌>>=◌ ◌>>◌ modify_ctx Settings.load
  load_state-IsSystemOk w z = record {
    table =
        subst (λ (c : AppContext). IsWellFormed c.client_slots) (sym same)
          (zero_table-IsWellFormed cfg.max_clients);
    store =
        subst (λ (c : AppContext). IsStoreOk (adopt_ids st c).messages) (sym same)
          (fresh-IsStoreOk cfg st room (safe (load-state p w)).0 (safe (load-state p w)).1);
    usable =
        load-IsUsable p fits cfg (record ((load p w).1) { ctx = adopt_ids st (load p w).1.ctx });
  }
    where
      st : IdState
      st = (load p w).0.1

      same : (load p w).1.ctx ≡ zero_context cfg
      same = ap (λ v. v.0) (load-Quiet p w) ∙ z

      safe :
          (st ≡ fresh_state) ⊎ ((stored : ℕ) × (st ≡ boot_state stored))
          → (st.current_id ≤ max_safe_id) × (st.boot_start_id ≤ max_safe_id)
      safe (inl e) =
          subst (λ (i : IdState). (i.current_id ≤ max_safe_id) × (i.boot_start_id ≤ max_safe_id))
            (sym e) (omega arith, omega arith)
      safe (inr (stored, e)) =
          subst (λ (i : IdState). (i.current_id ≤ max_safe_id) × (i.boot_start_id ≤ max_safe_id))
            (sym e) (boot_state-safe stored)

module _ (p : Platform) (b : Board (p.Env)) (cfg : Config) (embedded : Asset → Bytes) where
  open p use {Env}

  perform-Keeps : (e : Event) → Keeps IsSystemOk (perform p b cfg embedded e)
  unfolding perform
  perform-Keeps (handshake fd) = search (keeps_rules, pre_handshake-Keeps p IsSystemOk-AllowsTable)
  perform-Keeps (frame fd) =
      search
        (keeps_rules, chat_ws_handler-Keeps p IsSystemOk-AllowsTable IsSystemOk-AllowsStore cfg)
  perform-Keeps (session_closed fd) = session_close_handler-Keeps p IsSystemOk-AllowsTable fd
  perform-Keeps (settings_post len) =
      search (
        keeps_rules,
        settings_post_handler-Keeps p IsSystemOk-AllowsTable IsSystemOk-AllowsSettings,
      )
  perform-Keeps (queued work) = run_work-Keeps p cfg work
  perform-Keeps heartbeat = heartbeat_round-Keeps p IsSystemOk-AllowsTable
  perform-Keeps settings_read = search (keeps_rules, settings_get_handler-Keeps p b)
  perform-Keeps unknown_page = search (keeps_rules, redirect_to_root_handler-Keeps p b)
  perform-Keeps (asset_read a) = search (keeps_rules, asset_get_handler-Keeps p b embedded)

  -- The worlds that the program reaches: it boots, and then runs events. Between them the clock, the
  -- sockets, the flash and the memory may change in any way.
  pub data Reach : World Env → Type 0 where
    booted : (w : World Env) → (app_main p b cfg w).0 ≡ true → Reach (app_main p b cfg w).1
    stepped :
        (w : World Env) (e : Event) (env : Env)
        → Reach w
        → Reach (perform p b cfg embedded e (record w { env = env })).1

  module _ (fits : Fits p) (room : 1 ≤ cfg.max_messages) where
    start_up-IsSystemOk :
        (w : World Env) → (start_up p b cfg w).0 ≡ true → IsSystemOk (start_up p b cfg w).1.ctx
    unfolding start_up ◌>>=◌ ◌>>◌ put_ctx
    start_up-IsSystemOk w = Running-while (create_mutexes p b v).0 _ (create_mutexes p b v).1 (λ q.
        after_load-Keeps.at _ (
          load_state-IsSystemOk p cfg fits room (create_mutexes p b v).1
            ((create_mutexes-Keeps p b {I = λ c. c ≡ zero_context cfg}).at v refl)))
      where
        v : World Env
        v = record w { ctx = zero_context cfg }

        after_load-Keeps :
            Keeps IsSystemOk (softap_start p b cfg >>= λ c. while_running c (start_tasks p b cfg))
        after_load-Keeps =
            Keeps-bind _ _ (softap_start-Keeps p b cfg)
              (λ c. Keeps-while_running c _ (start_tasks-Keeps p b cfg))

    app_main-IsSystemOk :
        (w : World Env) → (app_main p b cfg w).0 ≡ true → IsSystemOk (app_main p b cfg w).1.ctx
    unfolding app_main ◌>>=◌
    app_main-IsSystemOk w =
        Running-while (init_flash p b w).0 (start_up p b cfg) (init_flash p b w).1
          (λ q. start_up-IsSystemOk (init_flash p b w).1 q)

    -- Where reading a string from NVS writes no more than its buffer holds and the ring has a
    -- place at least, every world that the program reaches after a boot that is not stopped by a
    -- failed check, by handshakes, WebSocket frames, closed sessions, requests for a page, reads
    -- and changes of the settings, queued work and heartbeats in any order, has a well-formed
    -- client table, a ring that holds a history with consecutive ids, which is empty until the
    -- counter is loaded, a counter and a first id of the boot that are safe integers, and usable
    -- settings.
    pub Reach-IsSystemOk : (w : World Env) → Reach w → IsSystemOk w.ctx
    Reach-IsSystemOk w (booted v running) = app_main-IsSystemOk v running
    Reach-IsSystemOk w (stepped v e env r) = (perform-Keeps e).at _ (Reach-IsSystemOk v r)
