-- ===== src/System.antt =====
-- The invariant of the shared app_context_t, that main/src/chat, main/src/server and main/src/storage
-- rely on, and what a part of the program may do under any such invariant.
pub mod Sends
pub mod Presence
pub mod Store
pub mod Handlers
pub mod Frames
pub mod Requests
pub mod Boot
pub mod Reach
pub mod Bounds
pub mod Attempts
pub mod Admission
pub mod Closing
pub mod Marking
pub mod Fate
pub mod Served
pub mod Delivery
use esp32_web_chat.Common.{ℕ, ◌≡◌, ◌≤◌, ◌⊎◌, Bool, true, Option, List, []}
use esp32_web_chat.Common.Int.{ℤ}
use esp32_web_chat.Config.{Message, ChatSettings, max_safe_id}
use esp32_web_chat.Slots.{Slots}
use esp32_web_chat.Slots.WellFormed.{IsWellFormed}
use esp32_web_chat.History.{MessageStore}
use esp32_web_chat.History.Ring.{Holds}
use esp32_web_chat.Settings.Valid.{IsUsable}
use esp32_web_chat.Platform.{AppContext}

-- The ring holds a history, which is empty until the counter is loaded, and the ids are safe integers.
pub record IsStoreOk (st : MessageStore) : Type 0 where
  pub history : List Message
  pub holds : Holds history st
  pub empty_or_loaded : (st.message_id_counter_valid ≡ true) ⊎ (history ≡ [])
  pub counter_safe : st.message_id_counter ≤ max_safe_id
  pub boot_safe : st.boot_start_id ≤ max_safe_id

pub record IsSystemOk (c : AppContext) : Type 0 where
  pub table : IsWellFormed c.client_slots
  pub store : IsStoreOk c.messages
  pub usable : IsUsable c.settings

-- An invariant that lets the client table be replaced by a well-formed one, and the flags, the time
-- of the last sweep and the task of the server by any.
pub record AllowsTable (I : AppContext → Type 0) : Type 0 where
  pub table : (c : AppContext) → I c → IsWellFormed c.client_slots
  pub with_table :
      (c : AppContext) (ss : Slots) → I c → IsWellFormed ss → I (record c { client_slots = ss })
  pub with_flags :
      (c : AppContext) (presence sweep : Bool) (t : ℤ) (task : Option ℕ)
      → I c
      → I (record c {
        presence_broadcast_pending = presence;
        heartbeat_sweep_pending = sweep;
        last_heartbeat_sweep_s = t;
        httpd_task_handle = task;
      })

-- An invariant that lets the messages be replaced by ones that are right.
pub record AllowsStore (I : AppContext → Type 0) : Type 0 where
  pub store : (c : AppContext) → I c → IsStoreOk c.messages
  pub with_store :
      (c : AppContext) (st : MessageStore) → I c → IsStoreOk st → I (record c { messages = st })

-- An invariant that lets the settings be replaced by usable ones.
pub record AllowsSettings (I : AppContext → Type 0) : Type 0 where
  pub usable : (c : AppContext) → I c → IsUsable c.settings
  pub with_settings :
      (c : AppContext) (s : ChatSettings) → I c → IsUsable s → I (record c { settings = s })

abbrev pub IsTableOk : AppContext → Type 0
IsTableOk c = IsWellFormed c.client_slots

pub IsTableOk-AllowsTable : AllowsTable IsTableOk
IsTableOk-AllowsTable = record {
  table = λ c h. h;
  with_table = λ c ss h k. k;
  with_flags = λ c b s t task h. h;
}

pub IsSystemOk-AllowsTable : AllowsTable IsSystemOk
IsSystemOk-AllowsTable = record {
  table = λ c h. h.table;
  with_table = λ c ss h k. record { table = k; store = h.store; usable = h.usable };
  with_flags = λ c b s t task h. record { table = h.table; store = h.store; usable = h.usable };
}

pub IsSystemOk-AllowsStore : AllowsStore IsSystemOk
IsSystemOk-AllowsStore = record {
  store = λ c h. h.store;
  with_store = λ c st h k. record { table = h.table; store = k; usable = h.usable };
}

pub IsSystemOk-AllowsSettings : AllowsSettings IsSystemOk
IsSystemOk-AllowsSettings = record {
  usable = λ c h. h.usable;
  with_settings = λ c s h k. record { table = h.table; store = h.store; usable = k };
}
