-- ===== src/Http/Secret.antt =====
-- What reading the settings over HTTP tells of them.
use esp32_web_chat.Common.{ℕ, ◌≡◌, refl, ap, subst, Bool, not, Option, none, some, Bytes, is_empty}
use esp32_web_chat.Platform.{
  Platform, Run, World, AppContext, ◌>>=◌, ◌>>◌, done, call, tell, get_ctx, on_option,
}
use esp32_web_chat.Board.{Board}
use esp32_web_chat.Server.{or_same, add}
use esp32_web_chat.Http.{send_json_response}
use esp32_web_chat.Http.Pages.{describe_settings, settings_get_handler}

-- Two worlds that differ in their contexts alone, where the contexts agree.
module _ (Agree : AppContext → AppContext → Type 0) where
  abbrev Alike : {Env : Type 0} → World Env → World Env → Type 0
  Alike w v = (w.env ≡ v.env) × (w.frames ≡ v.frames) × Agree w.ctx v.ctx

  -- `m` answers the same in both, and leaves them so.
  record Blind {Env A : Type 0} (m : Run Env A) : Type 0 where
    at : (w v : World Env) → Alike w v → ((m w).0 ≡ (m v).0) × Alike (m w).1 (m v).1

module _ {Agree : AppContext → AppContext → Type 0} {Env : Type 0} where
  Blind-done : {A : Type 0} (a : A) → Blind Agree {Env = Env} (done a)
  unfolding done
  Blind-done a = record { at = λ w v h. (refl, h) }

  Blind-call : {A : Type 0} (f : Env → A × Env) → Blind Agree (call f)
  unfolding call
  Blind-call f = record { at = λ w v h. (ap (λ e. (f e).0) h.0, (ap (λ e. (f e).1) h.0, h.1, h.2)) }

  Blind-tell : (f : Env → Env) → Blind Agree (tell f)
  unfolding tell
  Blind-tell f = record { at = λ w v h. (refl, (ap f h.0, h.1, h.2)) }

  Blind-bind :
      {A B : Type 0} (m : Run Env A) (f : A → Run Env B)
      → Blind Agree m
      → ((a : A) → Blind Agree (f a))
      → Blind Agree (m >>= f)
  unfolding ◌>>=◌
  Blind-bind m f h k = record {
    at = λ w v e.
        let r = h.at w v e in
        subst
          (λ a.
            ((f (m w).0 (m w).1).0 ≡ (f a (m v).1).0)
            × Alike Agree (f (m w).0 (m w).1).1 (f a (m v).1).1)
          r.0 ((k (m w).0).at (m w).1 (m v).1 r.1);
  }

  Blind-then :
      {A B : Type 0} (m : Run Env A) (k : Run Env B)
      → Blind Agree m
      → Blind Agree k
      → Blind Agree (m >> k)
  unfolding ◌>>◌
  Blind-then m k h j = record { at = λ w v e. j.at (m w).1 (m v).1 (h.at w v e).1 }

  Blind-on_option :
      {A X : Type 0} (o : Option X) (m : Run Env A) (k : X → Run Env A)
      → Blind Agree m
      → ((x : X) → Blind Agree (k x))
      → Blind Agree (on_option o m k)
  Blind-on_option none m k h j = h
  Blind-on_option (some x) m k h j = j x

  -- What is read of the context must be what the contexts agree on.
  Blind-read :
      {A B : Type 0} (view : AppContext → B) (body : B → Run Env A)
      → ((c d : AppContext) → Agree c d → view c ≡ view d)
      → ((x : B) → Blind Agree (body x))
      → Blind Agree (get_ctx >>= λ c. body (view c))
  unfolding ◌>>=◌ get_ctx
  Blind-read view body same h = record {
    at = λ w v e.
        subst
          (λ x.
            ((body (view w.ctx) w).0 ≡ (body x v).0)
            × Alike Agree (body (view w.ctx) w).1 (body x v).1)
          (same w.ctx v.ctx e.2) ((h (view w.ctx)).at w v e);
  }

ruleset blind_rules = (Blind-done, Blind-call, Blind-tell, Blind-bind, Blind-then, Blind-on_option)

module _ (p : Platform) (b : Board (p.Env)) {Agree : AppContext → AppContext → Type 0} where
  open p use {Env, Node}

  add-Blind : (f : Node → Env → Option Node × Env) (root : Node) → Blind Agree (add p f root)
  unfolding add
  add-Blind f root = record {
    at = λ w v h.
        (ap (λ e. or_same p root (f root e).0) h.0, (ap (λ e. (f root e).1) h.0, h.1, h.2));
  }

  send_json_response-Blind : (root : Node) → Blind Agree (send_json_response p root)
  unfolding send_json_response
  send_json_response-Blind root = search blind_rules depth 12

  describe_settings-Blind :
      (shown : Bytes × ℕ × Bool) (root : Node)
      → Blind Agree (describe_settings p b shown.0 shown.1 shown.2 root)
  unfolding describe_settings
  describe_settings-Blind shown root =
      search (blind_rules, add-Blind, send_json_response-Blind) depth 30

-- What settings_get_handler shows of the settings.
abbrev pub shown_settings : AppContext → Bytes × ℕ × Bool
shown_settings c = (c.settings.ssid, c.settings.channel, not (is_empty c.settings.password))

settings_get_handler-Blind :
    (p : Platform) (b : Board (p.Env))
    → Blind (λ c d. shown_settings c ≡ shown_settings d) (settings_get_handler p b)
unfolding settings_get_handler
settings_get_handler-Blind p b = Blind-bind _ _ (Blind-call _) (λ created.
    Blind-on_option created _ _ (search blind_rules depth 6) (λ root.
      Blind-read shown_settings (λ s. describe_settings p b s.0 s.1 s.2 root) (λ c d e. e)
        (λ s. describe_settings-Blind p b s root)))

-- In two worlds whose contexts agree in the SSID, the channel and whether there is a Wi-Fi
-- password, and may differ in all else, the passwords among it, reading the settings over HTTP
-- gives the same answer and does the same to the platform and the wire.
pub settings_get_handler-hides :
    (p : Platform) (b : Board (p.Env)) (w v : World (p.Env))
    → w.env ≡ v.env
    → w.frames ≡ v.frames
    → shown_settings w.ctx ≡ shown_settings v.ctx
    → ((settings_get_handler p b w).0 ≡ (settings_get_handler p b v).0)
      × ((settings_get_handler p b w).1.env ≡ (settings_get_handler p b v).1.env)
      × ((settings_get_handler p b w).1.frames ≡ (settings_get_handler p b v).1.frames)
settings_get_handler-hides p b w v e f s =
    let r = (settings_get_handler-Blind p b).at w v (e, f, s) in (r.0, r.1.0, r.1.1)
