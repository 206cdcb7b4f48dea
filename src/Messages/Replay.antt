-- ===== src/Messages/Replay.antt =====
-- chat_history_send_to_client: the replay of the history to one client.
use esp32_web_chat.Common.{
  ℕ, zero, suc, ◌≡◌, ◌<◌, ◌≤◌, refl, sym, subst, ap, ◌∙◌, true, false, Option, none, some, List, [],
  ◌∷◌, Bytes, arith, ltb, length, length-append, replicate, Option-cases, inl, inr, ◌==◌,
}
use esp32_web_chat.Common.Int.{ℤ, pos, ltb_ℤ}
use esp32_web_chat.Config.{Message}
use esp32_web_chat.History.{MessageStore, next_message, no_message}
use esp32_web_chat.History.Ring.{Holds, length-in_order}
use esp32_web_chat.History.Select.{after, first, Run-bounds, next_lem, done, more}
use esp32_web_chat.History.Scan.{next_message-after}
use esp32_web_chat.Platform
use esp32_web_chat.Platform.{
  Platform, World, AppContext, locked, Frame, EspErr, esp_ok, err_timeout, is_ok, message_mutex,
  ◌>>=◌, ◌>>◌, call, tell, get_ctx, put_ctx, modify_ctx, device_uptime_s,
}
use esp32_web_chat.Platform.Keeps.{branch}
use esp32_web_chat.Server.{send_text}
use esp32_web_chat.Messages.{
  send_to_client, read_messages, replay, send_found, pick_locked, Picked, picked, no_mutex,
}

-- The platform gives the mutex and the memory, and the socket takes every frame.
pub record Grants (p : Platform) (fd : ℤ) : Type 0 where
  pub takes : (e : p.Env) → (p.take message_mutex e).0 ≡ true
  pub copies : (t : Bytes) (e : p.Env) → (p.copy_text t e).0 ≡ some t
  pub upgraded : (e : p.Env) → p.is_websocket fd e ≡ true
  pub sends : (t : Bytes) (e : p.Env) → (p.send_data fd t e).0 ≡ esp_ok
  pub sends_async : (t : Bytes) (e : p.Env) → (p.send_frame_async fd t e).0 ≡ esp_ok

-- The text of a message, and the wire after the messages were sent one after the other.
abbrev pub text_of : Option Bytes → Bytes
text_of none = []
text_of (some t) = t

abbrev pub wire : ℤ → List Message → List Frame → List Frame
wire fd [] frames = frames
wire fd (m ∷ ms) frames =
    wire fd ms (record { fd = fd; payload = text_of m.payload; result = esp_ok } ∷ frames)

nil : (xs : List Message) → length xs ≤ 0 → xs ≡ []
nil [] l = refl
nil (x ∷ xs) l = absurd (omega arith)

length-after : (cursor : ℕ) (ms : List Message) → length (after cursor ms) ≤ length ms
length-after cursor [] = omega arith
length-after cursor (m ∷ ms) = ground (arith, length-after cursor ms)

-- There are as many rounds as messages.
enough :
    (cursor : ℕ) (st : MessageStore) (ms : List Message)
    → Holds ms st
    → length (after cursor ms) ≤ length st.message_buffer
enough cursor st ms h = omega (
  arith,
  length-after cursor ms,
  length-in_order st h.inside,
  ap (length {0}) h.order,
  length-append {0} (replicate h.gap no_message) ms,
)

module _ (p : Platform) (fd : ℤ) (g : Grants p fd) where
  open p use {Env, take}

  send_text-sends :
      (t : Bytes) (w : World Env)
      → ltb_ℤ fd (pos 0) ≡ false
      → w.ctx.server ≡ true
      → (let r : EspErr × World Env = send_text p fd t w in
          (r.0 ≡ esp_ok)
          × (r.1.ctx ≡ w.ctx)
          × (r.1.frames ≡ record { fd = fd; payload = t; result = esp_ok } ∷ w.frames))
  unfolding send_text ◌>>=◌ ◌>>◌ Platform.done call tell get_ctx put_ctx modify_ctx locked
      device_uptime_s
  send_text-sends t w f s = ground (arith, g.upgraded w.env, g.sends t w.env, g.sends_async t w.env)

  -- What a round finds, by what the search over the ring gives.
  round_none :
      (cursor until : ℕ) (w : World Env)
      → next_message cursor until none w.ctx.messages.message_buffer ≡ none
      → (let r : Picked × World Env =
            locked p message_mutex no_mutex (pick_locked p cursor until) w in
          (r.0 ≡ picked 0 none) × (r.1.ctx ≡ w.ctx) × (r.1.frames ≡ w.frames))
  unfolding pick_locked ◌>>=◌ ◌>>◌ Platform.done call tell get_ctx put_ctx modify_ctx locked
      device_uptime_s
  round_none cursor until w e = ground (arith, g.takes w.env)

  round_some :
      (cursor until : ℕ) (m : Message) (t : Bytes) (w : World Env)
      → next_message cursor until none w.ctx.messages.message_buffer ≡ some m
      → m.payload ≡ some t
      → (let r : Picked × World Env =
            locked p message_mutex no_mutex (pick_locked p cursor until) w in
          (r.0 ≡ picked m.id (some t)) × (r.1.ctx ≡ w.ctx) × (r.1.frames ≡ w.frames))
  unfolding pick_locked ◌>>=◌ ◌>>◌ Platform.done call tell get_ctx put_ctx modify_ctx locked
      device_uptime_s
  round_some cursor until m t w e q =
      ground (arith, g.takes w.env, g.copies t (take message_mutex w.env).1)

  module _ (c : AppContext) (ms : List Message) (h : Holds ms c.messages) (online : c.server ≡ true)
      (open_fd : ltb_ℤ fd (pos 0) ≡ false) where
    abbrev Sent : ℕ → World Env → EspErr × World Env → Type 0
    Sent cursor w r =
        (r.0 ≡ esp_ok) × (r.1.ctx ≡ c) × (r.1.frames ≡ wire fd (after cursor ms) w.frames)

    -- A round that finds the message `m`, where the loop does its part from `m.id` on.
    send_found-Sent :
        (cursor : ℕ) (continue : ℕ → World Env → EspErr × World Env) (m : Message) (t : Bytes)
        (w : World Env)
        → w.ctx ≡ c
        → cursor < m.id
        → m.payload ≡ some t
        → after cursor ms ≡ m ∷ after m.id ms
        → ((v : World Env) → v.ctx ≡ c → Sent m.id v (continue m.id v))
        → Sent cursor w (send_found p fd continue (picked m.id (some t)) w)
    unfolding send_found ◌>>=◌ ◌>>◌ Platform.done call tell get_ctx put_ctx modify_ctx locked
        device_uptime_s
    send_found-Sent cursor continue m t w q lt u e k =
        branch (Sent cursor w) (m.id == 0) _ _ _
          (λ f.
            branch (Sent cursor w) (is_ok (send_text p fd t w).0) _ _ _
              (λ f'. absurd (ground (arith, sent.0)))
              (λ t'.
                let r = k (send_text p fd t w).1 (sent.1 ∙ q) in
                (r.0, r.1, r.2 ∙ (rw (sent.2, e, u) refl))))
          (λ z. absurd (ground arith))
      where
        sent :
            (let r : EspErr × World Env = send_text p fd t w in
              (r.0 ≡ esp_ok)
              × (r.1.ctx ≡ w.ctx)
              × (r.1.frames ≡ record { fd = fd; payload = t; result = esp_ok } ∷ w.frames))
        sent = send_text-sends t w open_fd (ap (λ (c : AppContext). c.server) q ∙ online)

    none_after :
        (cursor : ℕ) → ltb cursor c.messages.message_id_counter ≡ false → after cursor ms ≡ []
    none_after cursor f = elim (next_lem cursor h.lo ms c.messages.message_id_counter h.run) [
      | done e k ↦ e
      | more m e k lt least ↦
          absurd (ground (arith, Run-bounds h.lo ms c.messages.message_id_counter m h.run k))
    ]

    abbrev find : ℕ → World Env → Picked × World Env
    find cursor w =
        locked p message_mutex no_mutex (pick_locked p cursor c.messages.message_id_counter) w

    search :
        (cursor : ℕ) (w : World Env)
        → w.ctx ≡ c
        → next_message cursor c.messages.message_id_counter none w.ctx.messages.message_buffer
          ≡ first (after cursor ms)
    search cursor w q =
        ap
          (λ (c' : AppContext).
            next_message cursor c.messages.message_id_counter none c'.messages.message_buffer)
          q
        ∙ next_message-after cursor c.messages ms h

    find_nothing-Sent :
        (cursor : ℕ) (continue : ℕ → World Env → EspErr × World Env) (w : World Env)
        → w.ctx ≡ c
        → after cursor ms ≡ []
        → Sent cursor w (send_found p fd continue (find cursor w).0 (find cursor w).1)
    unfolding send_found ◌>>=◌ ◌>>◌ Platform.done call tell get_ctx put_ctx modify_ctx locked
        device_uptime_s
    find_nothing-Sent cursor continue w q e =
        let r =
          round_none cursor c.messages.message_id_counter w (search cursor w q ∙ ap first e) in
        subst (λ x. Sent cursor w (send_found p fd continue x (find cursor w).1)) (sym r.0)
          (refl, r.1 ∙ q, r.2 ∙ rw e refl)

    find_message-Sent :
        (cursor : ℕ) (continue : ℕ → World Env → EspErr × World Env) (m : Message) (t : Bytes)
        (w : World Env)
        → w.ctx ≡ c
        → cursor < m.id
        → m.payload ≡ some t
        → after cursor ms ≡ m ∷ after m.id ms
        → ((v : World Env) → v.ctx ≡ c → Sent m.id v (continue m.id v))
        → Sent cursor w (send_found p fd continue (find cursor w).0 (find cursor w).1)
    find_message-Sent cursor continue m t w q lt u e k =
        let r =
          round_some cursor c.messages.message_id_counter m t w (search cursor w q ∙ ap first e)
            u in
        let s = send_found-Sent cursor continue m t (find cursor w).1 (r.1 ∙ q) lt u e k in
        subst (λ x. Sent cursor w (send_found p fd continue x (find cursor w).1)) (sym r.0)
          (s.0, s.1, s.2 ∙ ap (wire fd (after cursor ms)) r.2)

    replay-Sent :
        (rounds cursor : ℕ) (w : World Env)
        → w.ctx ≡ c
        → length (after cursor ms) ≤ rounds
        → Sent cursor w (replay p fd c.messages.message_id_counter rounds cursor w)
    unfolding replay ◌>>=◌ ◌>>◌ Platform.done call tell get_ctx put_ctx modify_ctx locked
        device_uptime_s
    replay-Sent zero cursor w q l = (refl, q, rw (nil (after cursor ms) l) refl)
    replay-Sent (suc rounds) cursor w q l =
        branch (Sent cursor w) (ltb cursor c.messages.message_id_counter) _ _ _
          (λ f. (refl, q, rw (none_after cursor f) refl))
          (λ t. elim (next_lem cursor h.lo ms c.messages.message_id_counter h.run) [
            | done e k ↦ find_nothing-Sent cursor _ w q e
            | more m e k lt least ↦ elim (Option-cases m.payload) [
              | inl none_there ↦
                  absurd
                    (ground (arith, Run-bounds h.lo ms c.messages.message_id_counter m h.run k))
              | inr (text, u) ↦
                  find_message-Sent cursor _ m text w q lt u e
                    (λ v z. replay-Sent rounds m.id v z (omega (arith, ap (length {0}) e)))
            ]
          ])

  read_messages-reads :
      (w : World Env)
      → (let r : Option MessageStore × World Env = read_messages p w in
          (r.0 ≡ some w.ctx.messages) × (r.1.ctx ≡ w.ctx) × (r.1.frames ≡ w.frames))
  unfolding read_messages ◌>>=◌ ◌>>◌ Platform.done call tell get_ctx put_ctx modify_ctx locked
      device_uptime_s
  read_messages-reads w = ground (arith, g.takes w.env)

  -- Where the mutex, the memory and the socket never refuse, the server is up and the descriptor
  -- is not negative, replaying the history that the ring holds answers ESP_OK, leaves the shared
  -- context as it was and puts exactly the messages with ids above since_id on the wire, in the
  -- order of the ids.
  pub send_to_client-replays :
      (since_id : ℕ) (w : World Env) (ms : List Message)
      → Holds ms w.ctx.messages
      → w.ctx.server ≡ true
      → ltb_ℤ fd (pos 0) ≡ false
      → (let r : EspErr × World Env = send_to_client p fd since_id w in
          (r.0 ≡ esp_ok) × (r.1.ctx ≡ w.ctx) × (r.1.frames ≡ wire fd (after since_id ms) w.frames))
  unfolding send_to_client ◌>>=◌ ◌>>◌ Platform.done call tell get_ctx put_ctx modify_ctx locked
      device_uptime_s
  send_to_client-replays since_id w ms h online open_fd =
      let (a, b, c) = read_messages-reads w in
      let v : World Env = (read_messages p w).1 in
      let r =
        replay-Sent w.ctx ms h online open_fd (length w.ctx.messages.message_buffer) since_id v b
          (enough since_id w.ctx.messages ms h) in
      subst (λ o. Sent w.ctx ms h online open_fd since_id w (from_messages o v)) (sym a)
        (r.0, r.1, r.2 ∙ ap (wire fd (after since_id ms)) c)
    where
      from_messages : Option MessageStore → World Env → EspErr × World Env
      from_messages o = elim o [
        | none ↦ Platform.done err_timeout
        | some st ↦ replay p fd st.message_id_counter (length st.message_buffer) since_id
      ]
