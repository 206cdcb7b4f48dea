-- ===== src/System/Delivery.antt =====
-- Whom chat_ws_broadcast of main/src/server/websocket_server.c reaches.
use esp32_web_chat.Common.{
  ℕ, some, get_elem?, ◌&&◌, true, ◌≤◌, ◌≡◌, refl, sym, subst, ◌∙◌, ◌⊎◌, inl, inr, Bool, false, List,
  [], ◌∷◌, ◌++◌, Bytes, Listed, length, arith,
}
use esp32_web_chat.Common.Int.{ℤ, pos, ltb_ℤ}
use esp32_web_chat.Platform.{
  Platform, World, AppContext, Frame, client_mutex, is_ok, ◌>>=◌, ◌>>◌, done, call, tell, get_ctx,
  locked,
}
use esp32_web_chat.Platform.Keeps.{branch}
use esp32_web_chat.Server.{send_text, send_each, close_client, broadcast}
use esp32_web_chat.Server.Recipients.{NonNegative}
use esp32_web_chat.System.Sends.{send_text-Keeps}
use esp32_web_chat.System.Attempts.{Waits, recipients}
use esp32_web_chat.Config.{ClientSlot}
use esp32_web_chat.Slots.{Slots, is_open}
use esp32_web_chat.Slots.WellFormed.{IsWellFormed}
use esp32_web_chat.Server.Distinct.{Distinct, broadcast_fds-Distinct, broadcast_fds-Listed}
use esp32_web_chat.System.Marking.{IsGone, Closes, close_client-Closes}
use esp32_web_chat.System.Fate.{Fate, waiting, served, dropped, drop-Fate, serve-Fate, fail-Fate}
use esp32_web_chat.System.Closing.{
  taken, Left, close_client-Left, close_client-frames, send_text-taken, send_text-frames,
}
use esp32_web_chat.System.Served.{Fates, Served, skip, add}

-- What a broadcast that began in `w`, with its answer and the world after it, did.
pub record Delivered (p : Platform) (payload : Bytes) (w : World (p.Env)) (r : Bool × World (p.Env))
    : Type 0 where
  -- The frames that it handed over stand before those of earlier.
  pub new : List Frame
  pub wire : r.1.frames ≡ new ++ w.frames
  pub few : length new ≤ length (recipients w.ctx)
  pub only : (f : Frame) → Listed f new → (f.payload ≡ payload) × Listed f.fd (recipients w.ctx)
  pub reached : (fd : ℤ) → Listed fd (recipients r.1.ctx) → Listed (taken fd payload) new
  -- A client that it goes to is sent to and its slot is as it was, or the transport has taken nothing
  -- for it and its slot is marked as closing.
  pub each :
      (i : ℕ) (s : ClientSlot)
      → get_elem? w.ctx.client_slots i ≡ some s
      → (is_open s && s.joined) ≡ true
      → ((get_elem? r.1.ctx.client_slots i ≡ some s) × Listed (taken s.fd payload) new)
        ⊎ ((s' : ClientSlot) × (get_elem? r.1.ctx.client_slots i ≡ some s')
            × IsGone s'
            × (Listed (taken s.fd payload) new → ⊥))
  pub unchanged : r.0 ≡ false → r.1.ctx ≡ w.ctx

module _ (p : Platform) (waits : Waits p) (payload : Bytes) where
  open p use {Env}

  abbrev Ends : World Env → World Env → Bool × World Env → Type 0
  Ends start w r = Served p payload start [] r.1 × (r.0 ≡ false → r.1.ctx ≡ w.ctx)

  -- A client that cannot be sent to, and is closed.
  drop_client :
      (start w : World Env) (fd : ℤ) (fds : List ℤ)
      → ltb_ℤ fd (pos 0) ≡ false
      → (Listed fd fds → ⊥)
      → is_ok (send_text p fd payload w).0 ≡ false
      → Served p payload start (fd ∷ fds) w
      → Served p payload start fds (close_client p fd (send_text p fd payload w).1).1
  drop_client start w fd fds low apart failed d = elim (send_text-frames p fd payload w) [
    | inl none ↦ skip p payload start w _ fd fds d (quiet ∙ none) left fates
    | inr one ↦
        add p payload start w _ fd fds d _ refl refl (quiet ∙ one)
          (λ g m. ((left g m).0, inl (left g m).1)) (λ i s g e. fail-Fate _ failed (fates i s g e))
  ]
    where
      sent : World Env
      sent = (send_text p fd payload w).1

      same : sent.ctx ≡ w.ctx
      same = (send_text-Keeps p {I = λ c. c ≡ w.ctx} fd payload).at w refl

      quiet : (close_client p fd sent).1.frames ≡ sent.frames
      quiet = close_client-frames p fd sent

      left : Left fd (recipients w.ctx) (close_client p fd sent).1.ctx
      left =
          subst (λ (c : AppContext). Left fd (recipients c) (close_client p fd sent).1.ctx) same
            (close_client-Left p waits fd sent low)

      closes : Closes fd w.ctx.client_slots (close_client p fd sent).1.ctx.client_slots
      closes =
          subst
            (λ (c : AppContext).
              Closes fd c.client_slots (close_client p fd sent).1.ctx.client_slots)
            same (close_client-Closes p waits fd sent low)

      fates :
          Fates payload start.ctx.client_slots fds d.new (close_client p fd sent).1.ctx.client_slots
      fates i s g e =
          drop-Fate payload i s fd fds d.new apart _ _ (ground (arith, e)) closes (d.fates i s g e)

  send_each-Ends :
      (start w : World Env) (fds : List ℤ)
      → NonNegative fds
      → Distinct fds
      → Served p payload start fds w
      → Ends start w (send_each p payload fds w)
  unfolding send_each ◌>>=◌ done
  send_each-Ends start w [] low apart d = (d, λ q. refl)
  send_each-Ends start w (fd ∷ fds) low apart d =
      let sent = send_text p fd payload w in
      let same : sent.1.ctx ≡ w.ctx =
        (send_text-Keeps p {I = λ c. c ≡ w.ctx} fd payload).at w refl in
      branch (Ends start w) (is_ok sent.0) _ _ _
        (λ f. (
          (send_each-Ends start (close_client p fd sent.1).1 fds low.1 apart.1
              (drop_client start w fd fds low.0 apart.0 f d)).0,
          λ q. absurd (ground (arith, q)),
        ))
        (λ t.
          let next = send_each-Ends start sent.1 fds low.1 apart.1 (
            add p payload start w sent.1 fd fds d (taken fd payload) refl refl
              (send_text-taken p fd payload w t)
              (λ g m. (subst (λ (c : AppContext). Listed g (recipients c)) same m, inr refl))
              (λ i s g e.
                subst
                  (λ (c : AppContext).
                    Fate payload i s fds (taken fd payload ∷ d.new) c.client_slots)
                  (sym same) (serve-Fate payload i s fd fds d.new apart.0 _ (d.fates i s g e)))) in
          (next.0, λ q. next.1 q ∙ same))

  -- On a well-formed client table, where waiting for the client mutex without a timeout gets it,
  -- and no client to whom the broadcast goes has a negative descriptor, a broadcast hands to the
  -- transport at most as many frames as there are open clients that have joined, all with the
  -- payload and to one of these clients. For each of them either the transport has taken such a
  -- frame and the slot is as it was, or it has taken none and the slot holds no user and is
  -- closing or free. It has taken one for every client that is still open and joined after it; and
  -- where it answers that none was closed, the context is as it was.
  pub broadcast-Delivered :
      (w : World Env)
      → IsWellFormed w.ctx.client_slots
      → NonNegative (recipients w.ctx)
      → Delivered p payload w (broadcast p payload w)
  unfolding broadcast locked ◌>>=◌ ◌>>◌ get_ctx done call tell
  broadcast-Delivered w table low =
      branch (λ (r : List ℤ × World Env). Delivered p payload w (send_each p payload r.0 r.1))
        (p.take client_mutex w.env).0 _ _ _ (λ f. absurd (ground (arith, waits.takes w.env)))
        (λ t. finish (
          send_each-Ends w _ (recipients w.ctx) low
            (broadcast_fds-Distinct w.ctx.client_slots table)
            (record {
              new = [];
              wire = refl;
              few = omega arith;
              only = λ f m. absurd m;
              rest = λ g m. m;
              reached = λ g m. inl m;
              fates =
                  λ i s g e. waiting (broadcast_fds-Listed w.ctx.client_slots i s g e) g (λ m. m);
            })))
    where
      outcome :
          {i : ℕ} {s : ClientSlot} {new : List Frame} {ss : Slots}
          → Fate payload i s [] new ss
          → ((get_elem? ss i ≡ some s) × Listed (taken s.fd payload) new)
            ⊎ ((s' : ClientSlot) × (get_elem? ss i ≡ some s')
                × IsGone s'
                × (Listed (taken s.fd payload) new → ⊥))
      outcome (waiting l g unsent) = absurd l
      outcome (served n g y) = inl (g, y)
      outcome (dropped n s' g h unsent) = inr (s', g, h, unsent)

      finish : {r : Bool × World Env} → Ends w w r → Delivered p payload w r
      finish e = record {
        new = e.0.new;
        wire = e.0.wire;
        few = omega (arith, e.0.few);
        only = e.0.only;
        reached = λ fd m. elim (e.0.reached fd m) [ inl b ↦ absurd b | inr l ↦ l ];
        each = λ i s g o. outcome (e.0.fates i s g o);
        unchanged = e.1;
      }
