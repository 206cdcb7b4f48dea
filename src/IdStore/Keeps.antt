-- ===== src/IdStore/Keeps.antt =====
-- Reading and writing the stored counter leaves the shared context alone.
use esp32_web_chat.Common.{ℕ, ◌≡◌, ◌≤◌, ◌⊎◌, ◌||◌, ◌∙◌, refl, inl, inr, arith, if◌then◌else◌}
use esp32_web_chat.Config.{max_safe_id}
use esp32_web_chat.Platform.{
  Platform, World, EspErr, is_ok, is_nvs_not_found, ◌>>=◌, ◌>>◌, done, call, tell, get_ctx, put_ctx,
  modify_ctx, locked, device_uptime_s,
}
use esp32_web_chat.Platform.Keeps.{Quiet, seen, branch}
use esp32_web_chat.IdStore.{IdState, fresh_state, boot_state, persist, read_counter, load}

module _ (p : Platform) where
  open p use {Env}

  pub persist-Quiet : (c b : ℕ) → Quiet (persist p c b)
  unfolding persist ◌>>=◌ ◌>>◌ done call tell get_ctx put_ctx modify_ctx locked device_uptime_s
  persist-Quiet c b w = ground arith

  pub read_counter-Quiet : Quiet (read_counter p)
  unfolding read_counter ◌>>=◌ ◌>>◌ done call tell get_ctx put_ctx modify_ctx locked device_uptime_s
  read_counter-Quiet w = ground arith

  pub load-Quiet : Quiet (load p)
  unfolding load ◌>>=◌ ◌>>◌ done call tell
  load-Quiet w =
      branch (λ r. seen r.1 ≡ seen w) (is_ok r.0.0 || is_nvs_not_found r.0.0) _ _ _
        (λ f. read_counter-Quiet w) (λ t. persist-Quiet _ _ r.1 ∙ read_counter-Quiet w)
    where
      r : (EspErr × ℕ) × World Env
      r = read_counter p w

  -- What loading leaves in the state: nothing, or what a stored counter gives.
  pub load-state :
      (w : World Env)
      → ((load p w).0.1 ≡ fresh_state) ⊎ ((stored : ℕ) × ((load p w).0.1 ≡ boot_state stored))
  unfolding load ◌>>=◌ ◌>>◌ done
  load-state w =
      branch
        (λ (r : (EspErr × IdState) × World Env).
          (r.0.1 ≡ fresh_state) ⊎ ((stored : ℕ) × (r.0.1 ≡ boot_state stored)))
        (is_ok r.0.0 || is_nvs_not_found r.0.0) _ _ _ (λ f. inl refl)
        (λ t. inr (if is_nvs_not_found r.0.0 then 0 else r.0.1, refl))
    where
      r : (EspErr × ℕ) × World Env
      r = read_counter p w

pub boot_state-safe :
    (stored : ℕ)
    → ((boot_state stored).current_id ≤ max_safe_id)
      × ((boot_state stored).boot_start_id ≤ max_safe_id)
unfolding boot_state
boot_state-safe stored = ground arith
