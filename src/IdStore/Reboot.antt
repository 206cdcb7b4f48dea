-- ===== src/IdStore/Reboot.antt =====
-- What the program stores in NVS before a reboot is what it starts from after it.
use esp32_web_chat.Common.{
  ℕ, suc, ◌≡◌, ◌<◌, refl, sym, ap, ◌∙◌, Bool, true, false, not, ◌||◌, Option, some, arith,
  if◌then◌else◌,
}
use esp32_web_chat.Config.{max_safe_id}
use esp32_web_chat.Platform.{
  Platform, Run, World, EspErr, esp_ok, is_ok, is_nvs_not_found, ◌>>=◌, ◌>>◌, done, call, tell,
}
use esp32_web_chat.Platform.Keeps.{branch, if_branch}
use esp32_web_chat.IdStore.{IdState, boot_state, then_if_ok, persist, read_counter, load}

-- NVS keeps, for the entry "current" of the namespace "chatmsg", the value that was set last, which
-- reads see, and the one that was committed last, which a reboot brings back.
pub record Flash (p : Platform) : Type 1 where
  pub IsMessages : p.Handle → Type 0
  pub staged : p.Env → Option ℕ
  pub stored : p.Env → Option ℕ
  pub reboot : p.Env → p.Env
  pub rebooted : (e : p.Env) → staged (reboot e) ≡ stored e
  pub opened : (write : Bool) (e : p.Env) → staged (p.nvs_open "chatmsg" write e).2 ≡ staged e
  pub opened_handle :
      (write : Bool) (e : p.Env)
      → is_ok (p.nvs_open "chatmsg" write e).0 ≡ true
      → IsMessages (p.nvs_open "chatmsg" write e).1
  pub set :
      (h : p.Handle) (n : ℕ) (e : p.Env)
      → IsMessages h
      → is_ok (p.nvs_set_u64 h "current" n e).0 ≡ true
      → staged (p.nvs_set_u64 h "current" n e).1 ≡ some n
  pub set_other :
      (h : p.Handle) (n : ℕ) (e : p.Env)
      → IsMessages h
      → staged (p.nvs_set_u64 h "boot_start" n e).1 ≡ staged e
  pub committed :
      (h : p.Handle) (e : p.Env)
      → IsMessages h
      → is_ok (p.nvs_commit h e).0 ≡ true
      → stored (p.nvs_commit h e).1 ≡ staged e
  pub closed : (h : p.Handle) (e : p.Env) → stored (p.nvs_close h e) ≡ stored e
  pub got :
      (h : p.Handle) (n : ℕ) (e : p.Env)
      → IsMessages h
      → staged e ≡ some n
      → ((p.nvs_get_u64 h "current" e).0 ≡ esp_ok) × ((p.nvs_get_u64 h "current" e).1 ≡ n)

pub boot_state-next :
    (id : ℕ)
    → id < max_safe_id
    → boot_state id ≡ record { boot_start_id = suc id; current_id = id; counter_loaded = true }
unfolding boot_state
boot_state-next id low = ground arith

module _ (p : Platform) (flash : Flash p) where
  open p use {Env, Handle}

  then_if_ok-ok :
      (ret : EspErr) (step : Run Env EspErr) (w : World Env)
      → is_ok (then_if_ok p ret step w).0 ≡ true
      → (is_ok ret ≡ true) × (then_if_ok p ret step w ≡ step w)
  unfolding done
  then_if_ok-ok ret step w =
      branch (λ r. is_ok r.0 ≡ true → (is_ok ret ≡ true) × (r ≡ step w)) (is_ok ret) _ _ _
        (λ f e. absurd (ground arith)) (λ t e. (t, refl))

  -- The two entries and the commit of a write, each where the one before answers ESP_OK.
  module _ (h : Handle) (is_messages : flash.IsMessages h) (id boot : ℕ) (w : World Env) where
    set_current : EspErr × Env
    set_current = p.nvs_set_u64 h "current" id w.env

    set_boot : EspErr × World Env
    set_boot =
        then_if_ok p set_current.0 (call (p.nvs_set_u64 h "boot_start" boot))
          (record w { env = set_current.1 })

    commit_write : EspErr × World Env
    commit_write = then_if_ok p set_boot.0 (call (p.nvs_commit h)) set_boot.1

    commit_write-stored : is_ok commit_write.0 ≡ true → flash.stored commit_write.1.env ≡ some id
    unfolding call set_current set_boot commit_write
    commit_write-stored ok =
        let c = then_if_ok-ok set_boot.0 (call (p.nvs_commit h)) set_boot.1 ok in
        let b =
          then_if_ok-ok set_current.0 (call (p.nvs_set_u64 h "boot_start" boot))
            (record w { env = set_current.1 }) c.0 in
        ap (λ (r : EspErr × World Env). flash.stored r.1.env) c.1
        ∙ flash.committed h set_boot.1.env is_messages
            (sym (ap (λ (r : EspErr × World Env). is_ok r.0) c.1) ∙ ok)
        ∙ ap (λ (r : EspErr × World Env). flash.staged r.1.env) b.1
        ∙ flash.set_other h boot set_current.1 is_messages
        ∙ flash.set h id w.env is_messages b.0

  -- A write that answers ESP_OK has committed the counter.
  pub persist-stored :
      (id boot : ℕ) (w : World Env)
      → is_ok (persist p id boot w).0 ≡ true
      → flash.stored (persist p id boot w).1.env ≡ some id
  unfolding persist ◌>>=◌ ◌>>◌ done call tell set_current set_boot commit_write
  persist-stored id boot w =
      if_branch (λ r. is_ok r.0 ≡ true → flash.stored r.1.env ≡ some id) (not (is_ok nvs.0)) _ _
        (λ f e. absurd (ground (arith, e)))
        (λ t e.
          flash.closed nvs.1 _
          ∙ commit_write-stored nvs.1 (flash.opened_handle true w.env (ground arith)) id boot _ e)
    where
      nvs : EspErr × Handle × Env
      nvs = p.nvs_open "chatmsg" true w.env

  read_counter-got :
      (id : ℕ) (w : World Env)
      → flash.staged w.env ≡ some id
      → is_ok (p.nvs_open "chatmsg" false w.env).0 ≡ true
      → ((read_counter p w).0.0 ≡ esp_ok) × ((read_counter p w).0.1 ≡ id)
  unfolding read_counter
  read_counter-got id w s ok =
      if_branch (λ (r : (EspErr × ℕ) × World Env). (r.0.0 ≡ esp_ok) × (r.0.1 ≡ id))
        (not (is_ok nvs.0)) _ _ (λ f. absurd (ground arith))
        (λ t.
          flash.got nvs.1 id nvs.2 (flash.opened_handle false w.env ok)
            (flash.opened false w.env ∙ s))
    where
      nvs : EspErr × Handle × Env
      nvs = p.nvs_open "chatmsg" false w.env

  -- Where the committed counter can be read after the reboot, loading finds the state that it gives.
  pub load-stored :
      (id : ℕ) (w : World Env)
      → flash.staged w.env ≡ some id
      → is_ok (p.nvs_open "chatmsg" false w.env).0 ≡ true
      → (load p w).0.1 ≡ boot_state id
  unfolding load ◌>>=◌ ◌>>◌ done
  load-stored id w s ok =
      let g = read_counter-got id w s ok in
      branch (λ (r : (EspErr × IdState) × World Env). r.0.1 ≡ boot_state id)
        (is_ok (read_counter p w).0.0 || is_nvs_not_found (read_counter p w).0.0) _ _ _
        (λ f. absurd (ground (arith, ap is_ok g.0)))
        (λ t. ap boot_state (counter (read_counter p w).0 g.0 g.1))
    where
      counter :
          (r : EspErr × ℕ)
          → r.0 ≡ esp_ok
          → r.1 ≡ id
          → (if is_nvs_not_found r.0 then 0 else r.1) ≡ id
      counter r e f = ground (arith, ap is_nvs_not_found e)

  -- On an NVS that reads what was set, and brings back after a reboot what was committed, where
  -- writing the counter answers ESP_OK with an id below the largest safe one and NVS can be opened
  -- after the reboot, loading gives that id as the last one that was given out, and the next one
  -- as the first id of the new boot.
  pub persist-load :
      (id boot : ℕ) (w v : World Env)
      → id < max_safe_id
      → is_ok (persist p id boot w).0 ≡ true
      → v.env ≡ flash.reboot (persist p id boot w).1.env
      → is_ok (p.nvs_open "chatmsg" false v.env).0 ≡ true
      → (load p v).0.1 ≡ record { boot_start_id = suc id; current_id = id; counter_loaded = true }
  persist-load id boot w v low ok e readable =
      load-stored id v (ap flash.staged e ∙ flash.rebooted _ ∙ persist-stored id boot w ok) readable
      ∙ boot_state-next id low
