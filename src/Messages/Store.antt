-- ===== src/Messages/Store.antt =====
-- chat_history_finalize_and_store_message as a whole: which of its outcomes change the ring.
use esp32_web_chat.Common.{
  ℕ, suc, ◌≡◌, ◌<◌, refl, ◌⊎◌, sym, subst, ap, ◌∙◌, true, false, Option, none, some, List, Bytes,
  arith, leb, length, inl, inr,
}
use esp32_web_chat.Common.Int.{ℤ}
use esp32_web_chat.Config.{Message, max_safe_id}
use esp32_web_chat.History.{MessageStore, push_message, next_id}
use esp32_web_chat.History.Ring.{Holds, remember, push-Holds}
use esp32_web_chat.Platform.{
  Platform, World, EspErr, esp_ok, is_ok, message_mutex, ◌>>=◌, ◌>>◌, done, call, tell, get_ctx,
  put_ctx, modify_ctx, locked, device_uptime_s,
}
use esp32_web_chat.IdStore.{persist}
use esp32_web_chat.IdStore.Keeps.{persist-Quiet}
use esp32_web_chat.Platform.Keeps.{Quiet, branch, option_branch}
use esp32_web_chat.Clock.{current_timestamp_s}
use esp32_web_chat.Messages.{
  publish, finalize_locked, commit, finalize_and_store_message, stamp, store_locked,
  ensure_id_state_locked,
}

-- What a call that answers `answer` makes of the messages.
pub data Outcome (before after : MessageStore) (answer : EspErr × Option Bytes) : Type 0 where
  refused : is_ok answer.0 ≡ false → answer.1 ≡ none → after ≡ before → Outcome before after answer
  stored :
      (payload : Bytes)
      → answer ≡ (esp_ok, some payload)
      → before.message_id_counter < max_safe_id
      → after ≡ push_message payload (suc before.message_id_counter) before
      → Outcome before after answer

module _ (p : Platform) where
  open p use {Env, Node, print_unformatted, take}

  abbrev Effect : MessageStore → (EspErr × Option Bytes) × World Env → Type 0
  Effect before r = Outcome before r.1.ctx.messages r.0

  publish-Outcome :
      (before : MessageStore) (payload : Option Bytes) (id : ℕ) (w : World Env)
      → w.ctx.messages ≡ before
      → id ≡ suc before.message_id_counter
      → before.message_id_counter < max_safe_id
      → Effect before (publish p payload id w)
  unfolding publish ◌>>=◌ ◌>>◌ done call tell get_ctx put_ctx modify_ctx locked device_uptime_s
  publish-Outcome before none id w q e h = refused refl refl q
  publish-Outcome before (some payload) id w q e h =
      branch (Effect before) (is_ok (persist p id w.ctx.messages.boot_start_id w).0) _ _ _
        (λ f. refused f refl (kept ∙ q))
        (λ t.
          stored payload refl h
            (ap (push_message payload id) (kept ∙ q) ∙ ap (λ i. push_message payload i before) e))
    where
      kept : (persist p id w.ctx.messages.boot_start_id w).1.ctx.messages ≡ w.ctx.messages
      kept = ap (λ s. s.0.messages) (persist-Quiet p id w.ctx.messages.boot_start_id w)

  pub next_id-suc :
      (st : MessageStore)
      → st.message_id_counter < max_safe_id
      → next_id st ≡ suc st.message_id_counter
  next_id-suc st h = omega arith

  pub stamp-Quiet : (id : ℕ) (t : ℤ) (root : Node) → Quiet (stamp p id t root)
  unfolding stamp ◌>>=◌ ◌>>◌ done call tell get_ctx put_ctx modify_ctx locked device_uptime_s
  stamp-Quiet id t root w = ground arith

  pub current_timestamp_s-Quiet : Quiet (current_timestamp_s p)
  unfolding current_timestamp_s ◌>>=◌ ◌>>◌ done call tell get_ctx put_ctx modify_ctx locked
      device_uptime_s
  current_timestamp_s-Quiet w = ground arith

  -- From the stamping of the object on.
  commit-Outcome :
      (before : MessageStore) (id : ℕ) (t : ℤ) (root : Node) (w : World Env)
      → w.ctx.messages ≡ before
      → id ≡ suc before.message_id_counter
      → before.message_id_counter < max_safe_id
      → Effect before (commit p id t root w)
  unfolding commit ◌>>=◌ ◌>>◌ done call tell get_ctx put_ctx modify_ctx locked device_uptime_s
  commit-Outcome before id t root w q e h =
      option_branch (Effect before) (stamp p id t root w).0 _ _ _
        (λ f. refused refl refl (kept ∙ q))
        (λ root' f. publish-Outcome before _ id _ (kept ∙ q) e h)
    where
      kept : (stamp p id t root w).1.ctx.messages ≡ w.ctx.messages
      kept = ap (λ s. s.0.messages) (stamp-Quiet id t root w)

  store_locked-Outcome :
      (root : Node) (w : World Env) → Effect w.ctx.messages (store_locked p root w)
  unfolding store_locked ◌>>=◌ ◌>>◌ done call tell get_ctx put_ctx modify_ctx locked device_uptime_s
  store_locked-Outcome root w =
      branch (Effect w.ctx.messages) (leb max_safe_id w.ctx.messages.message_id_counter) _ _ _
        (λ f.
          commit-Outcome w.ctx.messages _ _ root _
            (ap (λ s. s.0.messages) (current_timestamp_s-Quiet w))
            (next_id-suc w.ctx.messages (ground arith)) (ground arith))
        (λ t. refused refl refl refl)

  -- The counter is loaded: the state of the ids is left alone.
  pub ensure-valid :
      (w : World Env)
      → w.ctx.messages.message_id_counter_valid ≡ true
      → ensure_id_state_locked p w ≡ (esp_ok, w)
  unfolding ensure_id_state_locked ◌>>=◌ ◌>>◌ done call tell get_ctx put_ctx modify_ctx locked
      device_uptime_s
  ensure-valid w v =
      branch (λ r. r ≡ (esp_ok, w)) w.ctx.messages.message_id_counter_valid _ _ _
        (λ f. absurd (ground arith)) (λ t. refl)

  finalize_locked-Outcome :
      (root : Node) (w : World Env)
      → w.ctx.messages.message_id_counter_valid ≡ true
      → Effect w.ctx.messages (finalize_locked p root w)
  unfolding finalize_locked ◌>>=◌ ◌>>◌ done call tell get_ctx put_ctx modify_ctx locked
      device_uptime_s
  finalize_locked-Outcome root w v =
      branch (Effect w.ctx.messages) (is_ok (ensure_id_state_locked p w).0) _ _ _
        (λ f. absurd (ground (arith, ap (λ r. r.0) (ensure-valid w v))))
        (λ t.
          subst (λ v'. Effect w.ctx.messages (store_locked p root v'))
            (sym (ap (λ r. r.1) (ensure-valid w v))) (store_locked-Outcome root w))

  finalize-Outcome :
      (root : Node) (w : World Env)
      → w.ctx.messages.message_id_counter_valid ≡ true
      → Effect w.ctx.messages (finalize_and_store_message p root w)
  unfolding finalize_and_store_message ◌>>=◌ ◌>>◌ done call tell get_ctx put_ctx modify_ctx locked
      device_uptime_s
  finalize-Outcome root w v =
      branch (Effect w.ctx.messages) (take message_mutex w.env).0 _ _ _
        (λ f. refused refl refl refl)
        (λ t. finalize_locked-Outcome root (record w { env = (take message_mutex w.env).1 }) v)

  -- With the counter loaded and on a ring that holds a history, finalizing a message either
  -- reports an error, gives out no payload and leaves the messages as they were, or answers ESP_OK
  -- with a payload, the counter was below the largest safe id, and the ring holds the history with
  -- that payload under the next id, less its oldest message where the ring was full.
  pub finalize-Holds :
      (root : Node) (w : World Env) (ms : List Message)
      → w.ctx.messages.message_id_counter_valid ≡ true
      → Holds ms w.ctx.messages
      → (let r : (EspErr × Option Bytes) × World Env = finalize_and_store_message p root w in
          let st : MessageStore = w.ctx.messages in
          ((is_ok r.0.0 ≡ false) × (r.0.1 ≡ none) × (r.1.ctx.messages ≡ st))
          ⊎ ((payload : Bytes) × (r.0 ≡ (esp_ok, some payload))
              × (st.message_id_counter < max_safe_id)
              × Holds
                  (remember
                    (length st.message_buffer)
                    (record { payload = some payload; id = suc st.message_id_counter })
                    ms)
                  r.1.ctx.messages))
  finalize-Holds root w ms v h = elim (finalize-Outcome root w v) [
    | refused a b c ↦ inl (a, b, c)
    | stored payload a b c ↦
        inr (payload, a, b, subst (Holds _) (sym c) (push-Holds payload w.ctx.messages ms h))
  ]
