-- ===== src/System/Closing.antt =====
-- What sending to a client, and closing it, does to the recipients of a broadcast and to the wire
-- (main/src/server/websocket_server.c).
use esp32_web_chat.Common.{
  ◌≡◌, refl, sym, subst, ◌∙◌, ◌⊎◌, inl, inr, Bool, true, false, List, [], ◌∷◌, Bytes, Listed, arith,
  if◌then◌else◌,
}
use esp32_web_chat.Common.Int.{ℤ, pos, ltb_ℤ, eqb_ℤ}
use esp32_web_chat.Platform.{
  Platform, Run, World, AppContext, Frame, EspErr, esp_ok, client_mutex, is_ok, ◌>>=◌, ◌>>◌, done,
  call, tell, get_ctx, put_ctx, locked, on_httpd_task,
}
use esp32_web_chat.Platform.Keeps.{branch}
use esp32_web_chat.Platform.Rules.{Keeps, Keeps-locked}
use esp32_web_chat.Sessions.{on_table, mark_closing, remove_by_fd}
use esp32_web_chat.Slots
use esp32_web_chat.Slots.{Slots}
use esp32_web_chat.Server.{broadcast_fds, send_text, close_client, close_from_outside}
use esp32_web_chat.Server.Recipients.{
  without, broadcast_fds-mark_closing, broadcast_fds-remove_by_fd,
}
use esp32_web_chat.System.Sends.{after_marking-Keeps}
use esp32_web_chat.System.Attempts.{Waits, recipients}

-- A frame that the transport took.
abbrev pub taken : ℤ → Bytes → Frame
taken fd payload = record { fd = fd; payload = payload; result = esp_ok }

Listed-without :
    (g fd : ℤ) (l : List ℤ) → Listed g (without fd l) → Listed g l × (eqb_ℤ g fd ≡ false)
unfolding without
Listed-without g fd [] h = absurd h
Listed-without g fd (x ∷ l) h = here (eqb_ℤ x fd) refl (Listed-without g fd l) h
  where
    here :
        (b : Bool)
        → eqb_ℤ x fd ≡ b
        → (Listed g (without fd l) → Listed g l × (eqb_ℤ g fd ≡ false))
        → Listed g (if b then without fd l else x ∷ without fd l)
        → Listed g (x ∷ l) × (eqb_ℤ g fd ≡ false)
    here true e later m = let r = later m in (inr r.0, r.1)
    here false e later (inl q) = (inl q, subst (λ (y : ℤ). eqb_ℤ y fd ≡ false) (sym q) e)
    here false e later (inr m) = let r = later m in (inr r.0, r.1)

-- Those who a change leaves are among the recipients that are not `fd`.
abbrev pub Left : ℤ → List ℤ → AppContext → Type 0
Left fd l c = (g : ℤ) → Listed g (recipients c) → Listed g l × (eqb_ℤ g fd ≡ false)

module _ (p : Platform) where
  open p use {Env}

  on_table-Left :
      (f : Slots → Bool × Slots) (fd : ℤ) (l : List ℤ)
      → ((ss : Slots) → broadcast_fds (f ss).1 ≡ without fd (broadcast_fds ss))
      → Keeps (Left fd l) (locked p client_mutex false (on_table p f))
  unfolding ◌>>=◌ ◌>>◌ get_ctx put_ctx done
  on_table-Left f fd l e = Keeps-locked p _ _ _ (record {
    at = λ w h g m. h g (Listed-without g fd _ (subst (Listed g) (e w.ctx.client_slots) m)).0;
  })

  remove_by_fd-Left : (fd : ℤ) (l : List ℤ) → Keeps (Left fd l) (remove_by_fd p fd)
  unfolding remove_by_fd
  remove_by_fd-Left fd l = on_table-Left _ fd l (broadcast_fds-remove_by_fd fd)

  mark_closing-Left_again : (fd : ℤ) (l : List ℤ) → Keeps (Left fd l) (mark_closing p fd)
  unfolding mark_closing
  mark_closing-Left_again fd l = on_table-Left _ fd l (broadcast_fds-mark_closing fd)

  mark_closing-Left :
      (waits : Waits p) (fd : ℤ) (w : World Env)
      → Left fd (recipients w.ctx) (mark_closing p fd w).1.ctx
  unfolding mark_closing locked ◌>>=◌ ◌>>◌ get_ctx put_ctx done call tell
  mark_closing-Left waits fd w =
      branch (λ (r : Bool × World Env). Left fd (recipients w.ctx) r.1.ctx)
        (p.take client_mutex w.env).0 _ _ _ (λ f. absurd (ground (arith, waits.takes w.env)))
        (λ t g m.
          Listed-without g fd _
            (subst (Listed g) (broadcast_fds-mark_closing fd w.ctx.client_slots) m))

  pub close_client-Left :
      (waits : Waits p) (fd : ℤ) (w : World Env)
      → ltb_ℤ fd (pos 0) ≡ false
      → Left fd (recipients w.ctx) (close_client p fd w).1.ctx
  unfolding close_client ◌>>=◌
  close_client-Left waits fd w low =
      branch (λ (r : Unit {0} × World Env). Left fd (recipients w.ctx) r.1.ctx) (ltb_ℤ fd (pos 0)) _
        _ _
        (λ f.
          (after_marking-Keeps p fd (mark_closing-Left_again fd _) (remove_by_fd-Left fd _)).at _
            (mark_closing-Left waits fd w))
        (λ t. absurd (ground arith))

  on_table-frames :
      (f : Slots → Bool × Slots) (w : World Env)
      → (locked p client_mutex false (on_table p f) w).1.frames ≡ w.frames
  unfolding locked ◌>>=◌ ◌>>◌ get_ctx put_ctx done call tell
  on_table-frames f w = ground arith

  -- What close_client does after it has marked the client.
  abbrev shut_or_close : ℤ → Bool → Run Env (Unit {0})
  shut_or_close fd server = elim server [
    | false ↦ do removed ← remove_by_fd p fd; done tt
    | true ↦ λ w.
        if on_httpd_task p w.ctx.httpd_task_handle (p.current_task w.env)
        then tell (p.shutdown fd) w
        else close_from_outside p fd w
  ]

  shut_or_close-frames :
      (fd : ℤ) (server : Bool) (w : World Env) → (shut_or_close fd server w).1.frames ≡ w.frames
  unfolding ◌>>=◌ done tell call remove_by_fd
  shut_or_close-frames fd false w = on_table-frames (Slots.remove_by_fd fd) w
  shut_or_close-frames fd true w = ground (
    arith,
    on_table-frames (Slots.remove_by_fd fd) (record w { env = (p.trigger_close fd w.env).1 }),
  )

  -- Closing a client hands no frame to the transport.
  pub close_client-frames : (fd : ℤ) (w : World Env) → (close_client p fd w).1.frames ≡ w.frames
  unfolding close_client mark_closing ◌>>=◌ get_ctx done
  close_client-frames fd w =
      branch (λ (r : Unit {0} × World Env). r.1.frames ≡ w.frames) (ltb_ℤ fd (pos 0)) _ _ _
        (λ f.
          let marked = (mark_closing p fd w).1 in
          shut_or_close-frames fd marked.ctx.server marked
          ∙ on_table-frames (Slots.mark_closing fd) w)
        (λ t. refl)

  -- Sending hands the frame over, or hands over one that is not taken, or none.
  pub send_text-taken :
      (fd : ℤ) (payload : Bytes) (w : World Env)
      → is_ok (send_text p fd payload w).0 ≡ true
      → (send_text p fd payload w).1.frames ≡ taken fd payload ∷ w.frames
  unfolding send_text
  send_text-taken fd payload w = ground arith

  pub send_text-frames :
      (fd : ℤ) (payload : Bytes) (w : World Env)
      → (let r : EspErr × World Env = send_text p fd payload w in
          (r.1.frames ≡ w.frames)
          ⊎ (r.1.frames ≡ record { fd = fd; payload = payload; result = r.0 } ∷ w.frames))
  unfolding send_text
  send_text-frames fd payload w = ground arith
