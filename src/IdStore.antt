-- ===== src/IdStore.antt =====
-- main/src/storage/message_id_store.c: the message counter in NVS.
pub mod Keeps
pub mod Reboot
use esp32_web_chat.Common.{ℕ, ◌+◌, Bool, true, false, ◌||◌, not, if◌then◌else◌, ltb}
use esp32_web_chat.Config.{max_safe_id}
use esp32_web_chat.Platform.{
  Platform, Run, World, EspErr, esp_ok, is_ok, is_nvs_not_found, ◌>>=◌, ◌>>◌, done, call, tell,
}

-- chat_message_id_state_t
pub record IdState : Type 0 where
  pub boot_start_id : ℕ
  pub current_id : ℕ
  pub counter_loaded : Bool

-- `*state = (chat_message_id_state_t) { .boot_start_id = 1 }`.
abbrev pub fresh_state : IdState
fresh_state = record { boot_start_id = 1; current_id = 0; counter_loaded = false }

-- The state that chat_message_ids_load derives from the stored counter.
unfoldable pub boot_state : ℕ → IdState
boot_state stored =
    let current : ℕ = if ltb max_safe_id stored then max_safe_id else stored in
    record {
      boot_start_id = if ltb current max_safe_id then current + 1 else max_safe_id;
      current_id = current;
      counter_loaded = true;
    }

module _ (p : Platform) where
  open p use {Env, Handle, nvs_open, nvs_get_u64, nvs_set_u64, nvs_commit, nvs_close}

  -- `if (ret == ESP_OK) ret = step;`
  abbrev pub then_if_ok : EspErr → Run Env EspErr → Run Env EspErr
  then_if_ok ret step = elim (is_ok ret) [ true ↦ step | false ↦ done ret ]

  -- chat_message_ids_persist.
  unfoldable pub persist : ℕ → ℕ → Run Env EspErr
  persist current_id boot_start_id w =
      let (ret, nvs, env) = nvs_open "chatmsg" true w.env in
      if not (is_ok ret) then (ret, record w { env = env }) else write nvs (record w { env = env })
    where
      write : Handle → Run Env EspErr
      write nvs = do
        set ← call (nvs_set_u64 nvs "current" current_id)
        boot ← then_if_ok set (call (nvs_set_u64 nvs "boot_start" boot_start_id))
        ret ← then_if_ok boot (call (nvs_commit nvs))
        tell (nvs_close nvs)
        done ret

  -- The read of chat_message_ids_load: its result and the counter.
  unfoldable pub read_counter : Run Env (EspErr × ℕ)
  read_counter w =
      let (ret, nvs, env) = nvs_open "chatmsg" false w.env in
      if not (is_ok ret)
      then ((ret, 0), record w { env = env })
      else read nvs (record w { env = env })
    where
      read : Handle → Run Env (EspErr × ℕ)
      read nvs v =
          let (ret, current, env) = nvs_get_u64 nvs "current" v.env in
          ((ret, current), record v { env = nvs_close nvs env })

  -- chat_message_ids_load: its result, and what it leaves in `*state`.
  unfoldable pub load : Run Env (EspErr × IdState)
  unfolding read_counter persist boot_state
  load = do
    r ← read_counter
    elim (is_ok r.0 || is_nvs_not_found r.0) [
      | false ↦ done (r.0, fresh_state)
      | true ↦ do
        let st = boot_state (if is_nvs_not_found r.0 then 0 else r.1)
        ret ← persist st.current_id st.boot_start_id
        done (ret, st)
    ]
