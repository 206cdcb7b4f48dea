-- ===== src/System/Attempts.antt =====
-- The broadcast of the online users of main/src/chat/sessions.c, which is repeated while it closes
-- clients, settles within its MAX_CLIENTS + 1 attempts.
use esp32_web_chat.Common.{
  ℕ, zero, suc, ◌+◌, ◌≡◌, refl, sym, ap, subst, ◌∙◌, Bool, true, false, Option, none, some, List,
  [], ◌∷◌, ◌++◌, append_assoc, append-nil, Bytes, length, arith, if◌then◌else◌,
}
use esp32_web_chat.Common.Int.{ℤ, pos, ltb_ℤ}
use esp32_web_chat.Slots.{Slots}
use esp32_web_chat.Platform.{
  Platform, Run, World, AppContext, client_mutex, is_ok, ◌>>=◌, ◌>>◌, done, call, tell, get_ctx,
  put_ctx, locked, on_option,
}
use esp32_web_chat.Platform.Keeps.{branch}
use esp32_web_chat.Platform.Rules.{Keeps, Keeps-locked}
use esp32_web_chat.Sessions.{on_table, mark_closing, remove_by_fd}
use esp32_web_chat.Server.{broadcast_fds, send_text, send_each, close_client, broadcast}
use esp32_web_chat.Server.Recipients.{
  Bounded, NonNegative, without, without-Bounded, without_member-Bounded,
  broadcast_fds-mark_closing, broadcast_fds-remove_by_fd, length-broadcast_fds,
}
use esp32_web_chat.Presence.{
  build_online_users_payload, broadcast_attempts, broadcast_online_users_now,
}
use esp32_web_chat.System.Sends.{send_text-Keeps, closes-Keeps, sends-Keeps, after_marking-Keeps}
use esp32_web_chat.System.Presence.{build_online_users_payload-Keeps}

-- Taking the client mutex with portMAX_DELAY succeeds.
pub record Waits (p : Platform) : Type 0 where
  pub takes : (e : p.Env) → (p.take client_mutex e).0 ≡ true

-- The clients that a broadcast is sent to.
abbrev pub recipients : AppContext → List ℤ
recipients c = broadcast_fds c.client_slots

abbrev Few : ℕ → AppContext → Type 0
Few n c = Bounded n (recipients c)

module _ (p : Platform) (n : ℕ) where
  on_table-Few :
      (f : Slots → Bool × Slots) (fd : ℤ)
      → ((ss : Slots) → broadcast_fds (f ss).1 ≡ without fd (broadcast_fds ss))
      → Keeps (Few n) (on_table p f)
  unfolding ◌>>=◌ ◌>>◌ get_ctx put_ctx done
  on_table-Few f fd e = record {
    at = λ w h. subst (Bounded n) (sym (e w.ctx.client_slots)) (without-Bounded fd n _ h);
  }

  mark_closing-Few : (fd : ℤ) → Keeps (Few n) (mark_closing p fd)
  unfolding mark_closing
  mark_closing-Few fd = Keeps-locked p _ _ _ (on_table-Few _ fd (broadcast_fds-mark_closing fd))

  remove_by_fd-Few : (fd : ℤ) → Keeps (Few n) (remove_by_fd p fd)
  unfolding remove_by_fd
  remove_by_fd-Few fd = Keeps-locked p _ _ _ (on_table-Few _ fd (broadcast_fds-remove_by_fd fd))

  close_client-Few : (fd : ℤ) → Keeps (Few n) (close_client p fd)
  close_client-Few fd = closes-Keeps p fd (mark_closing-Few fd) (remove_by_fd-Few fd)

module _ (p : Platform) (waits : Waits p) (n : ℕ) where
  open p use {Env}

  -- Closing a client that a broadcast is sent to leaves one fewer.
  mark_closing-fewer :
      (before : List ℤ) (fd : ℤ) (after : List ℤ) (w : World Env)
      → recipients w.ctx ≡ before ++ fd ∷ after
      → Few (suc n) w.ctx
      → Few n (mark_closing p fd w).1.ctx
  unfolding mark_closing locked ◌>>=◌ ◌>>◌ get_ctx put_ctx done call tell
  mark_closing-fewer before fd after w e h =
      branch (λ (r : Bool × World Env). Few n r.1.ctx) (p.take client_mutex w.env).0 _ _ _
        (λ f. absurd (ground (arith, waits.takes w.env)))
        (λ t.
          subst (Bounded n)
            (sym (broadcast_fds-mark_closing fd w.ctx.client_slots ∙ ap (without fd) e))
            (without_member-Bounded before fd after n (subst (Bounded (suc n)) e h)))

  close_client-fewer :
      (before : List ℤ) (fd : ℤ) (after : List ℤ) (w : World Env)
      → ltb_ℤ fd (pos 0) ≡ false
      → recipients w.ctx ≡ before ++ fd ∷ after
      → Few (suc n) w.ctx
      → Few n (close_client p fd w).1.ctx
  unfolding close_client ◌>>=◌
  close_client-fewer before fd after w low e h =
      branch (λ (r : Unit {0} × World Env). Few n r.1.ctx) (ltb_ℤ fd (pos 0)) _ _ _
        (λ f.
          (after_marking-Keeps p fd (mark_closing-Few p n fd) (remove_by_fd-Few p n fd)).at _
            (mark_closing-fewer before fd after w e h))
        (λ t. absurd (ground arith))

  -- A broadcast that closes a client leaves one fewer at least.
  send_each-fewer :
      (payload : Bytes) (before fds : List ℤ) (w : World Env)
      → recipients w.ctx ≡ before ++ fds
      → NonNegative fds
      → Few (suc n) w.ctx
      → (send_each p payload fds w).0 ≡ true
      → Few n (send_each p payload fds w).1.ctx
  unfolding send_each ◌>>=◌ done
  send_each-fewer payload before [] w e low h = λ q. absurd (ground (arith, q))
  send_each-fewer payload before (fd ∷ fds) w e low h =
      let sent = send_text p fd payload w in
      let same : recipients sent.1.ctx ≡ recipients w.ctx =
        (send_text-Keeps p {I = λ c. recipients c ≡ recipients w.ctx} fd payload).at w refl in
      branch (λ (r : Bool × World Env). r.0 ≡ true → Few n r.1.ctx) (is_ok sent.0) _ _ _
        (λ f q. (sends-Keeps p (close_client-Few p n) payload fds).at _ (
          close_client-fewer before fd fds sent.1 low.0 (same ∙ e)
            (subst (Bounded (suc n)) (sym same) h)))
        (λ t.
          send_each-fewer payload (before ++ fd ∷ []) fds sent.1
            (same ∙ e ∙ sym (append_assoc before (fd ∷ []) fds)) low.1
            (subst (Bounded (suc n)) (sym same) h))

  broadcast-fewer :
      (payload : Bytes) (w : World Env)
      → Few (suc n) w.ctx
      → (broadcast p payload w).0 ≡ true
      → Few n (broadcast p payload w).1.ctx
  unfolding broadcast locked ◌>>=◌ ◌>>◌ get_ctx done call tell
  broadcast-fewer payload w h =
      branch
        (λ (r : List ℤ × World Env).
          (send_each p payload r.0 r.1).0 ≡ true → Few n (send_each p payload r.0 r.1).1.ctx)
        (p.take client_mutex w.env).0 _ _ _
        (λ f. send_each-fewer payload (recipients w.ctx) [] _ (sym (append-nil _)) tt h)
        (λ t. send_each-fewer payload [] (recipients w.ctx) _ refl h.1 h)

module _ (p : Platform) (waits : Waits p) where
  open p use {Env}

  -- One attempt, where the attempts after it come to the same.
  round :
      (n : ℕ) (closed : Bool) (longer shorter : Run Env Bool) (o : Option Bytes) (w : World Env)
      → Few (suc n) w.ctx
      → ((v : World Env) → Few n v.ctx → longer v ≡ shorter v)
      → on_option o
          (done closed)
          (λ payload. broadcast p payload >>= λ b. if b then longer else done closed)
          w
        ≡ on_option o
            (done closed)
            (λ payload. broadcast p payload >>= λ b. if b then shorter else done closed)
            w
  unfolding ◌>>=◌
  round n closed longer shorter none w h again = refl
  round n closed longer shorter (some payload) w h again =
      after_broadcast (broadcast p payload w).0 (broadcast p payload w).1
        (broadcast-fewer p waits n payload w h)
    where
      after_broadcast :
          (b : Bool) (v : World Env)
          → (b ≡ true → Few n v.ctx)
          → (if b then longer else done closed) v ≡ (if b then shorter else done closed) v
      after_broadcast true v k = again v (k refl)
      after_broadcast false v k = refl

  suc_add : (n more : ℕ) → suc n + more ≡ suc (n + more)
  suc_add n more = omega arith

  -- Where fewer clients are left than attempts, more attempts do nothing.
  broadcast_attempts-enough :
      (n more : ℕ) (closed : Bool) (w : World Env)
      → Few n w.ctx
      → broadcast_attempts p (n + more) closed w ≡ broadcast_attempts p n closed w
  unfolding broadcast_attempts ◌>>=◌
  broadcast_attempts-enough zero more closed w h = absurd (omega (arith, h.0))
  broadcast_attempts-enough (suc n) more closed w h =
      let built = build_online_users_payload p w in
      ap (λ (a : ℕ). broadcast_attempts p a closed w) (suc_add n more)
      ∙ round n closed (broadcast_attempts p (n + more) true) (broadcast_attempts p n true) built.0
          built.1 ((build_online_users_payload-Keeps p {I = Few (suc n)}).at w h)
          (λ v k. broadcast_attempts-enough n more true v k)

  -- Where waiting for the client mutex without a timeout gets it, and no client to whom a
  -- broadcast goes has a negative descriptor, MAX_CLIENTS + 1 attempts are enough for the
  -- broadcast of the online users: any number of further attempts comes to the same answer and the
  -- same world, since each attempt that closes a client leaves one fewer to send to.
  pub broadcast_online_users_now-settles :
      (w : World Env) (more : ℕ)
      → NonNegative (recipients w.ctx)
      → broadcast_attempts p (length w.ctx.client_slots + 1 + more) false w
        ≡ broadcast_online_users_now p w
  unfolding broadcast_online_users_now ◌>>=◌ get_ctx
  broadcast_online_users_now-settles w more low =
      broadcast_attempts-enough (length w.ctx.client_slots + 1) more false w
        (omega (arith, length-broadcast_fds w.ctx.client_slots), low)
