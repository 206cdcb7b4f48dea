-- ===== src/System/Sends.antt =====
-- Sending, closing and the functions on the client table keep every invariant of the table.
use Prim.Native.String.{String}
use esp32_web_chat.Common.{
  ◌≡◌, subst, Bool, true, false, Option, List, [], ◌∷◌, Bytes, arith, if◌then◌else◌,
}
use esp32_web_chat.Common.Int.{ℤ, pos, ltb_ℤ}
use esp32_web_chat.Slots
use esp32_web_chat.Slots.{Slots}
use esp32_web_chat.Slots.WellFormed.{
  IsWellFormed, mark_closing-IsWellFormed, remove_by_fd-IsWellFormed, mark_alive-IsWellFormed,
  set_time_offset-IsWellFormed, ensure_slot-IsWellFormed,
}
use esp32_web_chat.Platform.{
  Platform, Run, World, AppContext, ◌>>=◌, ◌>>◌, done, tell, get_ctx, put_ctx, modify_ctx,
  device_uptime_s, is_ok, is_not_found, on_httpd_task,
}
use esp32_web_chat.Platform.Rules.{
  Keeps, keeps_rules, Keeps-locked, Keeps-bind, Keeps-then, Keeps-done, Keeps-call, Keeps-tell,
  Keeps-get_ctx, Keeps-branch, Keeps-option, Keeps-modify_ctx,
}
use esp32_web_chat.Clock.{is_valid_epoch, current_timestamp_s, read_consensus}
use esp32_web_chat.Sessions.{
  on_table, mark_closing, remove_by_fd, mark_alive, is_joined, check_identity, ensure_slot,
  claims_slot, update_time_sample,
}
use esp32_web_chat.Server.{
  add, send_text, print_and_send, send_error, close_client, close_from_outside, send_each,
  broadcast,
}
use esp32_web_chat.System.{AllowsTable}

module _ (p : Platform) {I : AppContext → Type 0} where
  open p use {Env, Node}

  pub device_uptime_s-Keeps : Keeps I (device_uptime_s p)
  unfolding device_uptime_s
  device_uptime_s-Keeps = search keeps_rules

  read_consensus-Keeps : Keeps I (read_consensus p)
  unfolding read_consensus
  read_consensus-Keeps =
      Keeps-bind _ _ (Keeps-call _)
        (λ got. Keeps-branch got _ _ (Keeps-done _) (search keeps_rules))

  pub current_timestamp_s-Keeps : Keeps I (current_timestamp_s p)
  unfolding current_timestamp_s
  current_timestamp_s-Keeps = Keeps-bind _ _ (Keeps-call _) (λ now.
      Keeps-branch (is_valid_epoch now) _ _
        (search (keeps_rules, device_uptime_s-Keeps, read_consensus-Keeps)) (Keeps-done _))

  pub add-Keeps : (f : Node → Env → Option Node × Env) (root : Node) → Keeps I (add p f root)
  unfolding add
  add-Keeps f root = record { at = λ w h. h }

  pub send_text-Keeps : (fd : ℤ) (t : Bytes) → Keeps I (send_text p fd t)
  unfolding send_text
  send_text-Keeps fd t = record { at = λ w h. subst I (same w) h }
    where
      same : (w : World Env) → w.ctx ≡ (send_text p fd t w).1.ctx
      same w = ground arith

  print_and_send-Keeps : (fd : ℤ) (n : Node) → Keeps I (print_and_send p fd n)
  unfolding print_and_send
  print_and_send-Keeps fd n =
      Keeps-bind _ _ (Keeps-call _)
        (λ printed. Keeps-option printed _ _ (Keeps-done _) (send_text-Keeps fd))

  pub send_error-Keeps : (fd : ℤ) (code message : String) → Keeps I (send_error p fd code message)
  unfolding send_error
  send_error-Keeps fd code message = Keeps-bind _ _ (Keeps-call _) (λ created.
      Keeps-option created _ _ (Keeps-done _) (λ root.
        search (keeps_rules, add-Keeps, current_timestamp_s-Keeps, print_and_send-Keeps) depth 14))

pub ruleset sends_rules = (
  keeps_rules, device_uptime_s-Keeps, current_timestamp_s-Keeps, add-Keeps, send_text-Keeps,
  send_error-Keeps,
)

module _ (p : Platform) {I : AppContext → Type 0} (fd : ℤ) (marks : Keeps I (mark_closing p fd))
    (removes : Keeps I (remove_by_fd p fd)) where
  open p use {Env}

  close_from_outside-Keeps : Keeps I (close_from_outside p fd)
  close_from_outside-Keeps = Keeps-bind _ _ (Keeps-call _) (λ ret.
      Keeps-branch (is_not_found ret) _ _
        (Keeps-branch (is_ok ret) _ _ (Keeps-tell _) (Keeps-done _))
        (Keeps-bind _ _ removes (λ a. Keeps-done _)))

  shut_or_close-Keeps : Keeps I (λ (w : World Env).
      if on_httpd_task p w.ctx.httpd_task_handle (p.current_task w.env)
      then tell (p.shutdown fd) w
      else close_from_outside p fd w)
  shut_or_close-Keeps = record {
    at = λ w h. here (on_httpd_task p w.ctx.httpd_task_handle (p.current_task w.env)) w h;
  }
    where
      here :
          (b : Bool) (w : World Env)
          → I w.ctx
          → I (if b then tell (p.shutdown fd) w else close_from_outside p fd w).1.ctx
      here true w h = (Keeps-tell {I = I} (p.shutdown fd)).at w h
      here false w h = close_from_outside-Keeps.at w h

  -- close_client after it has marked the client.
  pub after_marking-Keeps : Keeps I (
      get_ctx >>= λ ctx. elim (ctx.server) as (λ b. Run Env (Unit {0})) [
        | false ↦ do removed ← remove_by_fd p fd; done tt
        | true ↦ λ w.
            if on_httpd_task p w.ctx.httpd_task_handle (p.current_task w.env)
            then tell (p.shutdown fd) w
            else close_from_outside p fd w
      ])
  after_marking-Keeps = Keeps-bind _ _ Keeps-get_ctx (λ ctx.
      Keeps-branch ctx.server _ _ (Keeps-bind _ _ removes (λ a. Keeps-done _)) shut_or_close-Keeps)

  pub closes-Keeps : Keeps I (close_client p fd)
  unfolding close_client
  closes-Keeps =
      Keeps-branch (ltb_ℤ fd (pos 0)) _ _ (Keeps-bind _ _ marks (λ was. after_marking-Keeps))
        (Keeps-done _)

-- A broadcast keeps what closing a client keeps.
module _ (p : Platform) {I : AppContext → Type 0}
    (closes : (fd : ℤ) → Keeps I (close_client p fd)) where
  pub sends-Keeps : (payload : Bytes) (fds : List ℤ) → Keeps I (send_each p payload fds)
  unfolding send_each
  sends-Keeps payload [] = Keeps-done _
  sends-Keeps payload (fd ∷ fds) = Keeps-bind _ _ (send_text-Keeps p fd payload) (λ ret.
      Keeps-branch (is_ok ret) _ _ (search (keeps_rules, closes fd, sends-Keeps payload fds))
        (sends-Keeps payload fds))

module _ (p : Platform) {I : AppContext → Type 0} (t : AllowsTable I) where
  open p use {Env, Node}

  on_table-Keeps :
      (f : Slots → Bool × Slots)
      → ((ss : Slots) → IsWellFormed ss → IsWellFormed (f ss).1)
      → Keeps I (on_table p f)
  unfolding ◌>>=◌ ◌>>◌ get_ctx put_ctx done
  on_table-Keeps f k = record { at = λ w h. t.with_table w.ctx _ h (k _ (t.table w.ctx h)) }

  pub mark_closing-Keeps : (fd : ℤ) → Keeps I (mark_closing p fd)
  unfolding mark_closing
  mark_closing-Keeps fd = Keeps-locked p _ _ _ (on_table-Keeps _ (mark_closing-IsWellFormed fd))

  pub remove_by_fd-Keeps : (fd : ℤ) → Keeps I (remove_by_fd p fd)
  unfolding remove_by_fd
  remove_by_fd-Keeps fd = Keeps-locked p _ _ _ (on_table-Keeps _ (remove_by_fd-IsWellFormed fd))

  pub mark_alive-Keeps : (fd : ℤ) → Keeps I (mark_alive p fd)
  unfolding mark_alive
  mark_alive-Keeps fd = Keeps-locked p _ _ _ (on_table-Keeps _ (mark_alive-IsWellFormed fd))

  pub is_joined-Keeps : (fd : ℤ) → Keeps I (is_joined p fd)
  unfolding is_joined
  is_joined-Keeps fd = Keeps-locked p _ _ _ (search keeps_rules)

  pub check_identity-Keeps : (fd : ℤ) (user : Option Bytes) → Keeps I (check_identity p fd user)
  unfolding check_identity
  check_identity-Keeps fd user = Keeps-locked p _ _ _ (search keeps_rules)

  pub ensure_slot-Keeps : (fd : ℤ) → Keeps I (ensure_slot p fd)
  unfolding ensure_slot
  ensure_slot-Keeps fd = Keeps-locked p _ _ _ (
      Keeps-bind _ _ Keeps-get_ctx (λ ctx.
        Keeps-branch (claims_slot p fd ctx.client_slots) _ _
          (on_table-Keeps _ (ensure_slot-IsWellFormed fd (pos 0)))
          (Keeps-bind _ _ (device_uptime_s-Keeps p)
            (λ now. on_table-Keeps _ (ensure_slot-IsWellFormed fd now)))))

  set_offset-Keeps :
      (f : AppContext → ℤ) (fd : ℤ)
      → Keeps {Env = Env} I (
          modify_ctx λ c. record c { client_slots = Slots.set_time_offset fd (f c) c.client_slots })
  set_offset-Keeps f fd =
      Keeps-modify_ctx _
        λ c h. t.with_table c _ h (set_time_offset-IsWellFormed fd (f c) _ (t.table c h))

  pub update_time_sample-Keeps : (fd : ℤ) (root : Node) → Keeps I (update_time_sample p fd root)
  unfolding update_time_sample
  update_time_sample-Keeps fd root =
      search (keeps_rules, Keeps-locked p, device_uptime_s-Keeps p, set_offset-Keeps) depth 10

  pub close_client-Keeps : (fd : ℤ) → Keeps I (close_client p fd)
  close_client-Keeps fd = closes-Keeps p fd (mark_closing-Keeps fd) (remove_by_fd-Keeps fd)

  send_each-Keeps : (payload : Bytes) (fds : List ℤ) → Keeps I (send_each p payload fds)
  send_each-Keeps = sends-Keeps p close_client-Keeps

  pub broadcast-Keeps : (payload : Bytes) → Keeps I (broadcast p payload)
  unfolding broadcast
  broadcast-Keeps payload = search (keeps_rules, Keeps-locked p, send_each-Keeps payload)

pub ruleset table_rules = (
  mark_closing-Keeps, remove_by_fd-Keeps, mark_alive-Keeps, is_joined-Keeps, check_identity-Keeps,
  ensure_slot-Keeps, update_time_sample-Keeps, close_client-Keeps, broadcast-Keeps,
)
