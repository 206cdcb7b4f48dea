-- ===== src/System/Served.antt =====
-- The steps of a broadcast of main/src/server/websocket_server.c: what is known after some clients.
use esp32_web_chat.Common.{
  ℕ, some, get_elem?, ◌&&◌, true, ◌+◌, ◌≤◌, ◌≡◌, sym, ap, subst, ◌∙◌, ◌⊎◌, inl, inr, false, List,
  ◌∷◌, ◌++◌, Bytes, Listed, length, arith,
}
use esp32_web_chat.Common.Int.{ℤ, eqb_ℤ, eqb_ℤ_refl}
use esp32_web_chat.Platform.{Platform, World, Frame}
use esp32_web_chat.System.Attempts.{recipients}
use esp32_web_chat.Config.{ClientSlot}
use esp32_web_chat.Slots.{Slots, is_open}
use esp32_web_chat.System.Fate.{Fate}
use esp32_web_chat.System.Closing.{taken, Left}

-- Where each client stands to whom the broadcast that began in `start` goes.
abbrev pub Fates : Bytes → Slots → List ℤ → List Frame → Slots → Type 0
Fates payload start fds new ss =
    (i : ℕ) (s : ClientSlot)
    → get_elem? start i ≡ some s
    → (is_open s && s.joined) ≡ true
    → Fate payload i s fds new ss

-- After a broadcast that began in `start` has served all but `fds`.
pub record Served (p : Platform) (payload : Bytes) (start : World (p.Env)) (fds : List ℤ)
    (w : World (p.Env)) : Type 0 where
  pub new : List Frame
  pub wire : w.frames ≡ new ++ start.frames
  pub few : length new + length fds ≤ length (recipients start.ctx)
  pub only : (f : Frame) → Listed f new → (f.payload ≡ payload) × Listed f.fd (recipients start.ctx)
  pub rest : (g : ℤ) → Listed g fds → Listed g (recipients start.ctx)
  pub reached : (g : ℤ) → Listed g (recipients w.ctx) → Listed g fds ⊎ Listed (taken g payload) new
  pub fates : Fates payload start.ctx.client_slots fds new w.ctx.client_slots

module _ (p : Platform) (payload : Bytes) (start w v : World (p.Env)) (fd : ℤ) (fds : List ℤ)
    (d : Served p payload start (fd ∷ fds) w) where
  -- No frame, and `fd` is no recipient any more.
  pub skip :
      v.frames ≡ w.frames
      → Left fd (recipients w.ctx) v.ctx
      → Fates payload start.ctx.client_slots fds d.new v.ctx.client_slots
      → Served p payload start fds v
  skip same left fates = record {
    new = d.new;
    wire = same ∙ d.wire;
    few = omega (arith, d.few);
    only = d.only;
    rest = λ g m. d.rest g (inr m);
    reached = λ g m. still g (left g m).1 (d.reached g (left g m).0);
    fates = fates;
  }
    where
      still :
          (g : ℤ)
          → eqb_ℤ g fd ≡ false
          → Listed g (fd ∷ fds) ⊎ Listed (taken g payload) d.new
          → Listed g fds ⊎ Listed (taken g payload) d.new
      still g e (inl (inl q)) =
          absurd (ground (arith, eqb_ℤ_refl fd, subst (λ (y : ℤ). eqb_ℤ y fd ≡ false) q e))
      still g e (inl (inr m)) = inl m
      still g e (inr m) = inr m

  -- One frame, for `fd`, which the transport took where `fd` is still a recipient.
  pub add :
      (f : Frame)
      → f.payload ≡ payload
      → f.fd ≡ fd
      → v.frames ≡ f ∷ w.frames
      → ((g : ℤ)
          → Listed g (recipients v.ctx)
          → Listed g (recipients w.ctx) × ((eqb_ℤ g fd ≡ false) ⊎ (f ≡ taken fd payload)))
      → Fates payload start.ctx.client_slots fds (f ∷ d.new) v.ctx.client_slots
      → Served p payload start fds v
  add f e q one left fates = record {
    new = f ∷ d.new;
    wire = one ∙ ap (λ l. f ∷ l) d.wire;
    few = omega (arith, d.few);
    only = λ h m. in_new h m;
    rest = λ g m. d.rest g (inr m);
    reached = λ g m. still g (left g m).1 (d.reached g (left g m).0);
    fates = fates;
  }
    where
      in_new :
          (h : Frame)
          → Listed h (f ∷ d.new)
          → (h.payload ≡ payload) × Listed h.fd (recipients start.ctx)
      in_new h (inl k) =
          (ap (λ (x : Frame). x.payload) k ∙ e, d.rest h.fd (inl (ap (λ (x : Frame). x.fd) k ∙ q)))
      in_new h (inr m) = d.only h m

      still :
          (g : ℤ)
          → (eqb_ℤ g fd ≡ false) ⊎ (f ≡ taken fd payload)
          → Listed g (fd ∷ fds) ⊎ Listed (taken g payload) d.new
          → Listed g fds ⊎ Listed (taken g payload) (f ∷ d.new)
      still g (inl n) (inl (inl k)) =
          absurd (ground (arith, eqb_ℤ_refl fd, subst (λ (y : ℤ). eqb_ℤ y fd ≡ false) k n))
      still g (inr t) (inl (inl k)) = inr (inl (ap (λ (x : ℤ). taken x payload) k ∙ sym t))
      still g _ (inl (inr m)) = inl m
      still g _ (inr m) = inr (inr m)
