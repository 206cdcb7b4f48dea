-- ===== src/Messages/Reboot.antt =====
-- An id that was given to a message is not given again after a reboot.
use esp32_web_chat.Common.{
  ℕ, suc, ◌≡◌, ◌<◌, sym, ap, subst, ◌∙◌, true, false, Option, none, some, Bytes, arith, leb,
}
use esp32_web_chat.Common.Int.{ℤ}
use esp32_web_chat.Config.{max_safe_id}
use esp32_web_chat.Platform.{
  Platform, World, EspErr, is_ok, message_mutex, ◌>>=◌, ◌>>◌, done, call, tell, get_ctx, modify_ctx,
  locked,
}
use esp32_web_chat.Platform.Keeps.{branch, option_branch}
use esp32_web_chat.IdStore.{load, persist}
use esp32_web_chat.IdStore.Reboot.{Flash, persist-stored, load-stored, boot_state-next}
use esp32_web_chat.Messages.{
  publish, commit, stamp, store_locked, ensure_id_state_locked, finalize_locked,
  finalize_and_store_message,
}
use esp32_web_chat.Messages.Store.{ensure-valid, next_id-suc}

module _ (p : Platform) (flash : Flash p)
    (unlocks : (e : p.Env) → flash.stored (p.give message_mutex e) ≡ flash.stored e) where
  open p use {Env, Node, print_unformatted, take}

  -- Where a payload was given out, its id is the one that is committed.
  abbrev Committed : ℕ → (EspErr × Option Bytes) × World Env → Type 0
  Committed id r = (payload : Bytes) → r.0.1 ≡ some payload → flash.stored r.1.env ≡ some id

  no_payload : {C : Type 0} (payload : Bytes) → none ≡ some payload → C
  no_payload payload q = absurd (ground (arith, q))

  publish-Committed :
      {id n : ℕ}
      → id ≡ n
      → (payload : Option Bytes) (w : World Env) → Committed n (publish p payload id w)
  unfolding publish ◌>>=◌ ◌>>◌ done get_ctx modify_ctx
  publish-Committed e none w = no_payload
  publish-Committed {id} {n} e (some payload) w =
      branch (Committed n) (is_ok (persist p id w.ctx.messages.boot_start_id w).0) _ _ _
        (λ f. no_payload)
        (λ t text q. persist-stored p flash id w.ctx.messages.boot_start_id w t ∙ ap some e)

  commit-Committed :
      {id n : ℕ}
      → id ≡ n
      → (t : ℤ) (root : Node) (w : World Env) → Committed n (commit p id t root w)
  unfolding commit ◌>>=◌ ◌>>◌ done call
  commit-Committed {id} {n} e t root w =
      option_branch (Committed n) (stamp p id t root w).0 _ _ _ (λ f. no_payload)
        (λ root' f. publish-Committed e _ _)

  store_locked-Committed :
      (root : Node) (w : World Env)
      → Committed (suc w.ctx.messages.message_id_counter) (store_locked p root w)
  unfolding store_locked ◌>>=◌ ◌>>◌ done get_ctx
  store_locked-Committed root w =
      branch (Committed (suc w.ctx.messages.message_id_counter))
        (leb max_safe_id w.ctx.messages.message_id_counter) _ _ _
        (λ f. commit-Committed (next_id-suc p w.ctx.messages (ground arith)) _ root _)
        (λ t. no_payload)

  finalize_locked-Committed :
      (root : Node) (w : World Env)
      → w.ctx.messages.message_id_counter_valid ≡ true
      → Committed (suc w.ctx.messages.message_id_counter) (finalize_locked p root w)
  unfolding finalize_locked ◌>>=◌ ◌>>◌ done
  finalize_locked-Committed root w v =
      branch (Committed (suc w.ctx.messages.message_id_counter))
        (is_ok (ensure_id_state_locked p w).0) _ _ _ (λ f. no_payload)
        (λ t.
          subst (λ v'. Committed (suc w.ctx.messages.message_id_counter) (store_locked p root v'))
            (sym (ap (λ r. r.1) (ensure-valid p w v))) (store_locked-Committed root w))

  finalize-Committed :
      (root : Node) (w : World Env)
      → w.ctx.messages.message_id_counter_valid ≡ true
      → Committed (suc w.ctx.messages.message_id_counter) (finalize_and_store_message p root w)
  unfolding finalize_and_store_message locked ◌>>=◌ ◌>>◌ done call tell
  finalize-Committed root w v =
      branch (Committed (suc w.ctx.messages.message_id_counter)) (take message_mutex w.env).0 _ _ _
        (λ f. no_payload)
        (λ t payload q.
          unlocks _
          ∙ finalize_locked-Committed root (record w { env = (take message_mutex w.env).1 }) v
              payload q)

  -- On an NVS that reads what was set, and brings back after a reboot what was committed, and that
  -- giving the mutex back leaves alone, where a message is stored with the counter loaded, under
  -- an id below the largest safe one, and its payload is given out, and NVS can be opened after a
  -- reboot right then, loading gives the id of that message as the last one that was given out,
  -- and the next one as the first id of the new boot: the id is not given again.
  pub finalize-load :
      (root : Node) (payload : Bytes) (w v : World Env)
      → w.ctx.messages.message_id_counter_valid ≡ true
      → suc w.ctx.messages.message_id_counter < max_safe_id
      → (finalize_and_store_message p root w).0.1 ≡ some payload
      → v.env ≡ flash.reboot (finalize_and_store_message p root w).1.env
      → is_ok (p.nvs_open "chatmsg" false v.env).0 ≡ true
      → (load p v).0.1 ≡ record {
        boot_start_id = suc (suc w.ctx.messages.message_id_counter);
        current_id = suc w.ctx.messages.message_id_counter;
        counter_loaded = true;
      }
  finalize-load root payload w v valid low q e readable =
      load-stored p flash (suc w.ctx.messages.message_id_counter) v
        (ap flash.staged e ∙ flash.rebooted _ ∙ finalize-Committed root w valid payload q) readable
      ∙ boot_state-next _ low
