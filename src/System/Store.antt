-- ===== src/System/Store.antt =====
-- Loading the counter, storing a message and replaying the history keep the invariant of the store.
use esp32_web_chat.Common.{
  ℕ, zero, suc, ◌≡◌, ◌≤◌, ◌<◌, inl, inr, refl, sym, subst, ap, true, false, Option, none, some, [],
  Bytes, arith, leb, ltb, ◌==◌,
}
use esp32_web_chat.Common.Int.{ℤ}
use esp32_web_chat.Config.{max_safe_id}
use esp32_web_chat.History.{MessageStore, push_message, next_message}
use esp32_web_chat.History.Ring.{Holds, remember, push-Holds}
use esp32_web_chat.Platform.{
  Platform, Run, World, AppContext, EspErr, message_mutex, is_ok, ◌>>=◌, ◌>>◌, done, call, get_ctx,
  modify_ctx,
}
use esp32_web_chat.Platform.Rules.{
  Keeps, keeps_rules, Keeps-locked, Keeps-bind, Keeps-then, Keeps-done, Keeps-branch, Keeps-option,
  Keeps-get_ctx,
}
use esp32_web_chat.Platform.Keeps.{branch, option_branch}
use esp32_web_chat.IdStore.{IdState, persist, load}
use esp32_web_chat.IdStore.Keeps.{persist-Quiet, load-Quiet, load-state, boot_state-safe}
use esp32_web_chat.Messages.{
  Picked, picked, no_mutex, current_restore_before_id, ensure_id_state_locked, ensure_id_state,
  publish, stamp, commit, store_locked, finalize_locked, finalize_and_store_message, pick_locked,
  send_found, replay, read_messages, send_to_client,
}
use esp32_web_chat.Messages.Store.{stamp-Quiet, current_timestamp_s-Quiet, next_id-suc}
use esp32_web_chat.System.{AllowsTable, AllowsStore, IsStoreOk}
use esp32_web_chat.System.Sends.{send_text-Keeps, send_error-Keeps, close_client-Keeps}

-- The counter is loaded from the flash while the ring is still empty.
loaded-IsStoreOk :
    (st : MessageStore) (current boot : ℕ)
    → IsStoreOk st
    → st.message_id_counter_valid ≡ false
    → current ≤ max_safe_id
    → boot ≤ max_safe_id
    → IsStoreOk (record st {
      message_id_counter = current;
      boot_start_id = boot;
      message_id_counter_valid = true;
    })
loaded-IsStoreOk st current boot ok v c b = elim ok.empty_or_loaded [
  | inl t ↦ absurd (ground arith)
  | inr e ↦
      let h : Holds [] st = subst (λ ms. Holds ms st) e ok.holds in
      record {
        history = [];
        holds = record {
          inside = h.inside;
          gap = h.gap;
          lo = current;
          order = h.order;
          run = refl;
        };
        empty_or_loaded = inl refl;
        counter_safe = c;
        boot_safe = b;
      }
]

push-IsStoreOk :
    (st : MessageStore) (payload : Bytes)
    → IsStoreOk st
    → st.message_id_counter_valid ≡ true
    → st.message_id_counter < max_safe_id
    → IsStoreOk (push_message payload (suc st.message_id_counter) st)
unfolding push_message
push-IsStoreOk st payload ok v c = record {
  history = remember _ _ ok.history;
  holds = push-Holds payload st ok.history ok.holds;
  empty_or_loaded = inl v;
  counter_safe = c;
  boot_safe = ok.boot_safe;
}

module _ (p : Platform) {I : AppContext → Type 0} where
  open p use {Env, Node}

  pub current_restore_before_id-Keeps : Keeps I (current_restore_before_id p)
  unfolding current_restore_before_id
  current_restore_before_id-Keeps = record {
    at = λ w h. (Keeps-locked {I = I} p message_mutex _ _ (search keeps_rules)).at w h;
  }

  pick_locked-Keeps : (cursor until : ℕ) → Keeps I (pick_locked p cursor until)
  unfolding pick_locked
  pick_locked-Keeps cursor until = Keeps-bind _ _ Keeps-get_ctx (λ ctx.
      Keeps-option (next_message cursor until none ctx.messages.message_buffer) _ _ (Keeps-done _)
        (λ m. Keeps-option m.payload _ _ (Keeps-done _) (λ text. search keeps_rules)))

  read_messages-Keeps : Keeps I (read_messages p)
  unfolding read_messages
  read_messages-Keeps = search (keeps_rules, Keeps-locked p)

  module _ (t : AllowsTable I) where
    send_found-Keeps :
        (fd : ℤ) (continue : ℕ → Run Env EspErr) (found : Picked)
        → ((n : ℕ) → Keeps I (continue n))
        → Keeps I (send_found p fd continue found)
    unfolding send_found
    send_found-Keeps fd continue no_mutex k = Keeps-done _
    send_found-Keeps fd continue (picked next payload) k =
        Keeps-branch (next == 0) _ _
          (Keeps-option payload _ _
            (Keeps-bind _ _
              (send_error-Keeps p fd "server_busy" "Message history is temporarily unavailable")
              (λ ret. Keeps-done _))
            (λ text. Keeps-bind _ _ (send_text-Keeps p fd text) (λ ret.
              Keeps-branch (is_ok ret) _ _
                (Keeps-then _ _ (close_client-Keeps p t fd) (Keeps-done _)) (k next))))
          (Keeps-done _)

    replay-Keeps : (fd : ℤ) (until rounds cursor : ℕ) → Keeps I (replay p fd until rounds cursor)
    unfolding replay
    replay-Keeps fd until zero cursor = Keeps-done _
    replay-Keeps fd until (suc rounds) cursor = Keeps-branch (ltb cursor until) _ _ (Keeps-done _) (
        Keeps-bind _ _ (Keeps-locked p _ _ _ (pick_locked-Keeps cursor until))
          (λ found. send_found-Keeps fd _ found (replay-Keeps fd until rounds)))

    pub send_to_client-Keeps : (fd : ℤ) (since_id : ℕ) → Keeps I (send_to_client p fd since_id)
    unfolding send_to_client
    send_to_client-Keeps fd since_id =
        Keeps-bind _ _ read_messages-Keeps
          (λ until. Keeps-option until _ _ (Keeps-done _) (λ ms. replay-Keeps fd _ _ since_id))

module _ (p : Platform) {I : AppContext → Type 0} (s : AllowsStore I) where
  open p use {Env, Node}

  -- The counter is loaded from the flash, where it was not, and then it is valid.
  abbrev Loaded : EspErr × World Env → Type 0
  Loaded r = I r.1.ctx × (is_ok r.0 ≡ true → r.1.ctx.messages.message_id_counter_valid ≡ true)

  ensure_id_state_locked-Loaded : (w : World Env) → I w.ctx → Loaded (ensure_id_state_locked p w)
  unfolding ensure_id_state_locked ◌>>=◌ ◌>>◌ done get_ctx modify_ctx
  ensure_id_state_locked-Loaded w h =
      branch Loaded w.ctx.messages.message_id_counter_valid _ _ _
        (λ f.
          branch Loaded (load p w).0.1.counter_loaded _ _ _
            (λ g. (subst I (sym same) h, λ o. absurd (ground arith)))
            (λ g.
              let b = safe g in
              (
                subst (λ c. I (record c { messages = with_ids c.messages })) (sym same)
                    (s.with_store w.ctx _ h
                      (loaded-IsStoreOk w.ctx.messages _ _ (s.store w.ctx h) f b.0 b.1)),
                λ o. refl,
              )))
        (λ v. (h, λ e. v))
    where
      same : (load p w).1.ctx ≡ w.ctx
      same = ap (λ v. v.0) (load-Quiet p w)

      st : IdState
      st = (load p w).0.1

      with_ids : MessageStore → MessageStore
      with_ids ms = record ms {
        message_id_counter = st.current_id;
        boot_start_id = st.boot_start_id;
        message_id_counter_valid = true;
      }

      safe :
          st.counter_loaded ≡ true
          → (st.current_id ≤ max_safe_id) × (st.boot_start_id ≤ max_safe_id)
      safe g = elim (load-state p w) [
        | inl e ↦ absurd (ground (arith, ap (λ (i : IdState). i.counter_loaded) e))
        | inr (stored, e) ↦
            subst (λ (i : IdState). (i.current_id ≤ max_safe_id) × (i.boot_start_id ≤ max_safe_id))
              (sym e) (boot_state-safe stored)
      ]

  pub ensure_id_state-Keeps : Keeps I (ensure_id_state p)
  unfolding ensure_id_state
  ensure_id_state-Keeps =
      Keeps-locked p _ _ _ (record { at = λ w h. (ensure_id_state_locked-Loaded w h).0 })

  -- What holds until the message is published: its id is the next one, and a safe integer.
  record IsNext (id : ℕ) (c : AppContext) : Type 0 where
    ok : I c
    valid : c.messages.message_id_counter_valid ≡ true
    next : id ≡ suc c.messages.message_id_counter
    room : c.messages.message_id_counter < max_safe_id

  publish-Ok :
      (payload : Option Bytes) (id : ℕ) (w : World Env)
      → IsNext id w.ctx
      → I (publish p payload id w).1.ctx
  unfolding publish ◌>>=◌ ◌>>◌ done get_ctx modify_ctx
  publish-Ok none id w n = n.ok
  publish-Ok (some payload) id w n =
      branch (λ r. I r.1.ctx) (is_ok (persist p id w.ctx.messages.boot_start_id w).0) _ _ _
        (λ f. subst I (sym same) n.ok)
        (λ t.
          subst (λ c. I (record c { messages = push_message payload id c.messages })) (sym same)
            (s.with_store w.ctx _ n.ok (
              subst (λ i. IsStoreOk (push_message payload i w.ctx.messages)) (sym n.next)
                (push-IsStoreOk w.ctx.messages payload (s.store w.ctx n.ok) n.valid n.room))))
    where
      same : (persist p id w.ctx.messages.boot_start_id w).1.ctx ≡ w.ctx
      same = ap (λ v. v.0) (persist-Quiet p id w.ctx.messages.boot_start_id w)

  commit-Ok :
      (id : ℕ) (now : ℤ) (root : Node) (w : World Env)
      → IsNext id w.ctx
      → I (commit p id now root w).1.ctx
  unfolding commit ◌>>=◌ ◌>>◌ done call
  commit-Ok id now root w n =
      option_branch (λ r. I r.1.ctx) (stamp p id now root w).0 _ _ _ (λ f. subst I (sym same) n.ok)
        (λ root' f. publish-Ok _ id _ (subst (IsNext id) (sym same) n))
    where
      same : (stamp p id now root w).1.ctx ≡ w.ctx
      same = ap (λ v. v.0) (stamp-Quiet p id now root w)

  store_locked-Ok :
      (root : Node) (w : World Env)
      → I w.ctx
      → w.ctx.messages.message_id_counter_valid ≡ true
      → I (store_locked p root w).1.ctx
  unfolding store_locked ◌>>=◌ ◌>>◌ done get_ctx
  store_locked-Ok root w h v =
      branch (λ r. I r.1.ctx) (leb max_safe_id w.ctx.messages.message_id_counter) _ _ _
        (λ f.
          let room : w.ctx.messages.message_id_counter < max_safe_id = ground arith in
          commit-Ok _ _ root _ (
            subst (IsNext _) (sym (ap (λ v. v.0) (current_timestamp_s-Quiet p w))) (record {
              ok = h;
              valid = v;
              next = next_id-suc p w.ctx.messages room;
              room = room;
            })))
        (λ t. h)

  finalize_locked-Keeps : (root : Node) → Keeps I (finalize_locked p root)
  unfolding finalize_locked ◌>>=◌ done
  finalize_locked-Keeps root = record {
    at = λ w h.
        let l = ensure_id_state_locked-Loaded w h in
        branch (λ r. I r.1.ctx) (is_ok (ensure_id_state_locked p w).0) _ _ _ (λ f. l.0)
          (λ t. store_locked-Ok root (ensure_id_state_locked p w).1 l.0 (l.1 t));
  }

  pub finalize_and_store_message-Keeps : (root : Node) → Keeps I (finalize_and_store_message p root)
  unfolding finalize_and_store_message
  finalize_and_store_message-Keeps root = Keeps-locked p _ _ _ (finalize_locked-Keeps root)
