-- ===== src/Takeover/Invariant.antt =====
-- The client table stays well formed through the sends and the closes of a takeover.
use esp32_web_chat.Common.{
  ◌≡◌, ◌≤◌, false, Option, none, some, List, [], ◌∷◌, Bytes, is_empty, length,
}
use esp32_web_chat.Common.Int.{ℤ}
use esp32_web_chat.Config.{max_user_id_len}
use esp32_web_chat.Slots.{pick_target, scan_slots}
use esp32_web_chat.Slots.WellFormed.{IsWellFormed}
use esp32_web_chat.Slots.Identity.{update_identity-IsWellFormed}
use esp32_web_chat.Platform.{
  Platform, World, AppContext, ◌>>=◌, ◌>>◌, done, get_ctx, put_ctx, device_uptime_s, call,
}
use esp32_web_chat.Platform.Rules.{
  Keeps, keeps_rules, Keeps-locked, Keeps-bind, Keeps-then, Keeps-done,
}
use esp32_web_chat.Platform.Keeps.{option_branch}
use esp32_web_chat.System.{AllowsTable, IsTableOk-AllowsTable}
use esp32_web_chat.System.Sends.{close_client-Keeps, send_error-Keeps}
use esp32_web_chat.Takeover.{replace_sessions, update_locked, update_identity}

module _ (p : Platform) {I : AppContext → Type 0} (t : AllowsTable I) where
  open p use {Env}

  replace_sessions-Keeps : (fds : List ℤ) → Keeps I (replace_sessions p fds)
  unfolding replace_sessions
  replace_sessions-Keeps [] = Keeps-done _
  replace_sessions-Keeps (fd ∷ fds) =
      Keeps-bind _ _
        (send_error-Keeps p fd "session_replaced"
          "This user connected from another browser session")
        (λ a. Keeps-then _ _ (close_client-Keeps p t fd) (replace_sessions-Keeps fds))

  module _ (fd : ℤ) (u : Bytes) (name : Option Bytes) (named : is_empty u ≡ false)
      (short : length u ≤ max_user_id_len) where
    update_locked-Keeps : Keeps I (update_locked p fd (some u) name)
    unfolding update_locked device_uptime_s ◌>>=◌ ◌>>◌ done get_ctx put_ctx call
    update_locked-Keeps = record {
      at = λ w h.
          option_branch (λ r. I r.1.ctx)
            (pick_target (scan_slots fd 0 none none w.ctx.client_slots)) _ _ _ (λ f. h)
            (λ target e. t.with_table w.ctx _ h (
              update_identity-IsWellFormed _ fd u name w.ctx.client_slots named short
                (t.table w.ctx h)));
    }

    pub update_identity-Keeps : Keeps I (update_identity p fd (some u) name)
    unfolding update_identity
    update_identity-Keeps =
        Keeps-bind _ _ (Keeps-locked p _ _ _ update_locked-Keeps)
          (λ r. search (keeps_rules, replace_sessions-Keeps))

module _ (p : Platform) where
  open p use {Env}

  -- A join with a non-empty user id of at most 63 bytes keeps a well-formed client table well
  -- formed to its end, with the notices to the replaced sessions and their closes, whatever the
  -- mutex, the memory and the sockets answer.
  pub takeover-IsWellFormed :
      (fd : ℤ) (u : Bytes) (name : Option Bytes) (named : is_empty u ≡ false)
      (short : length u ≤ max_user_id_len) (w : World Env)
      → IsWellFormed w.ctx.client_slots
      → IsWellFormed (update_identity p fd (some u) name w).1.ctx.client_slots
  takeover-IsWellFormed fd u name named short =
      (update_identity-Keeps p IsTableOk-AllowsTable fd u name named short).at
