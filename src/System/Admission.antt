-- ===== src/System/Admission.antt =====
-- When chat_ws_pre_handshake_handler of main/src/server/websocket_server.c lets a client in.
use esp32_web_chat.Common.{◌≡◌, refl, ◌⊎◌, inl, inr, Bool, true, false, arith, if◌then◌else◌}
use esp32_web_chat.Common.Int.{ℤ, pos}
use esp32_web_chat.Slots.{Slots}
use esp32_web_chat.Slots.Admission.{Admits, Refused, Outcome, ensure_slot-Outcome}
use esp32_web_chat.Platform.{
  Platform, World, EspErr, esp_ok, err_no_mem, client_mutex, ◌>>=◌, ◌>>◌, done, call, tell, get_ctx,
  put_ctx, modify_ctx, locked, device_uptime_s,
}
use esp32_web_chat.Platform.Keeps.{branch}
use esp32_web_chat.Sessions.{claims_slot, ensure_slot}
use esp32_web_chat.Handler.{enter, pre_handshake}
use esp32_web_chat.System.Attempts.{Waits}

-- What a handshake with this answer has done to the table.
abbrev pub Answered : {Env : Type 0} → ℤ → Slots → EspErr × World Env → Type 0
Answered fd ss r =
    ((r.0 ≡ esp_ok) × Admits fd ss r.1.ctx.client_slots)
    ⊎ ((r.0 ≡ err_no_mem) × (r.1.ctx.client_slots ≡ ss) × Refused fd ss)

module _ (p : Platform) (waits : Waits p) where
  open p use {Env}

  ensure_slot-Outcome_world :
      (fd : ℤ) (w : World Env)
      → (let r : Bool × World Env = ensure_slot p fd w in
          Outcome fd w.ctx.client_slots (r.0, r.1.ctx.client_slots))
  unfolding ensure_slot locked ◌>>=◌ ◌>>◌ get_ctx put_ctx done call tell device_uptime_s
  ensure_slot-Outcome_world fd w =
      branch Ok (p.take client_mutex w.env).0 _ _ _
        (λ f. absurd (ground (arith, waits.takes w.env)))
        (λ t.
          branch Ok (claims_slot p fd w.ctx.client_slots) _ _
            (record w { env = (p.take client_mutex w.env).1 })
            (λ f. ensure_slot-Outcome fd (pos 0) w.ctx.client_slots)
            (λ t. ensure_slot-Outcome fd _ w.ctx.client_slots))
    where
      Ok : Bool × World Env → Type 0
      Ok r = Outcome fd w.ctx.client_slots (r.0, r.1.ctx.client_slots)

  -- Where waiting for the client mutex without a timeout gets it, the handler before a handshake
  -- either answers ESP_OK, and then one slot is the open and live slot of the connection and the
  -- others are as they were, that slot having been the connection's open one, of which nothing
  -- else changed, or a free one, which now has no user; or it answers ESP_ERR_NO_MEM and leaves
  -- the table as it was, and then the connection has a slot that is closing, or every slot is in
  -- use by another connection.
  pub pre_handshake-admits :
      (fd : ℤ) (w : World Env) → Answered fd w.ctx.client_slots (pre_handshake p fd w)
  unfolding pre_handshake enter ◌>>=◌ ◌>>◌ done call modify_ctx
  pre_handshake-admits fd w = finish _ (ensure_slot-Outcome_world fd _)
    where
      finish :
          (r : Bool × World Env)
          → Outcome fd w.ctx.client_slots (r.0, r.1.ctx.client_slots)
          → Answered fd w.ctx.client_slots ((if r.0 then done esp_ok else done err_no_mem) r.1)
      finish (true, v) (inl (q, a)) = inl (refl, a)
      finish (true, v) (inr (q, e, a)) = absurd (ground (arith, q))
      finish (false, v) (inl (q, a)) = absurd (ground (arith, q))
      finish (false, v) (inr (q, e, a)) = inr (refl, e, a)
