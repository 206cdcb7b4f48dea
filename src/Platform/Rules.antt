-- ===== src/Platform/Rules.antt =====
-- Invariants of the shared context, with one rule for each way to build a piece of the program.
use esp32_web_chat.Common.{◌≡◌, refl, Bool, true, false, Option, none, some, if◌then◌else◌}
use esp32_web_chat.Platform.{
  Platform, Run, World, AppContext, Lock, ◌>>=◌, ◌>>◌, done, call, tell, get_ctx, modify_ctx,
  locked, on_option,
}

-- `m` keeps `I`, whatever the platform answers.
pub record Keeps {Env A : Type 0} (I : AppContext → Type 0) (m : Run Env A) : Type 0 where
  pub at : (w : World Env) → I w.ctx → I (m w).1.ctx

module _ {Env : Type 0} {I : AppContext → Type 0} where
  pub Keeps-done : {A : Type 0} (a : A) → Keeps {Env = Env} I (done a)
  unfolding done
  Keeps-done a = record { at = λ w h. h }

  pub Keeps-call : {A : Type 0} (f : Env → A × Env) → Keeps I (call f)
  unfolding call
  Keeps-call f = record { at = λ w h. h }

  pub Keeps-tell : (f : Env → Env) → Keeps I (tell f)
  unfolding tell
  Keeps-tell f = record { at = λ w h. h }

  pub Keeps-get_ctx : Keeps {Env = Env} I get_ctx
  unfolding get_ctx
  Keeps-get_ctx = record { at = λ w h. h }

  pub Keeps-bind :
      {A B : Type 0} (m : Run Env A) (f : A → Run Env B)
      → Keeps I m
      → ((a : A) → Keeps I (f a))
      → Keeps I (m >>= f)
  unfolding ◌>>=◌
  Keeps-bind m f km kf = record { at = λ w h. (kf (m w).0).at (m w).1 (km.at w h) }

  pub Keeps-then :
      {A B : Type 0} (m : Run Env A) (k : Run Env B) → Keeps I m → Keeps I k → Keeps I (m >> k)
  unfolding ◌>>◌
  Keeps-then m k km kk = record { at = λ w h. kk.at (m w).1 (km.at w h) }

  pub Keeps-branch :
      {A : Type 0} (b : Bool) (m k : Run Env A)
      → Keeps I m
      → Keeps I k
      → Keeps I (elim b as (λ x. Run Env A) [ false ↦ m | true ↦ k ])
  Keeps-branch false m k km kk = km
  Keeps-branch true m k km kk = kk

  pub Keeps-option :
      {A X : Type 0} (o : Option X) (m : Run Env A) (k : X → Run Env A)
      → Keeps I m
      → ((x : X) → Keeps I (k x))
      → Keeps I (elim o as (λ x. Run Env A) [ none ↦ m | some x ↦ k x ])
  Keeps-option none m k km kk = km
  Keeps-option (some x) m k km kk = kk x

  pub Keeps-if :
      {A : Type 0} (b : Bool) (m k : Run Env A)
      → (b ≡ true → Keeps I m)
      → (b ≡ false → Keeps I k)
      → Keeps I (if b then m else k)
  Keeps-if true m k km kk = km refl
  Keeps-if false m k km kk = kk refl

  pub Keeps-on_option :
      {A X : Type 0} (o : Option X) (m : Run Env A) (k : X → Run Env A)
      → Keeps I m
      → ((x : X) → o ≡ some x → Keeps I (k x))
      → Keeps I (on_option o m k)
  Keeps-on_option none m k km kk = km
  Keeps-on_option (some x) m k km kk = kk x refl

  pub Keeps-modify_ctx :
      (f : AppContext → AppContext)
      → ((c : AppContext) → I c → I (f c))
      → Keeps {Env = Env} I (modify_ctx f)
  unfolding modify_ctx
  Keeps-modify_ctx f h = record { at = λ w. h w.ctx }

pub ruleset keeps_rules = (
  Keeps-done, Keeps-call, Keeps-tell, Keeps-get_ctx, Keeps-bind, Keeps-then, Keeps-if,
  Keeps-on_option,
)

pub Keeps-locked :
    {I : AppContext → Type 0} (p : Platform) {A : Type 0} (lock : Lock) (otherwise : A)
    (body : Run (p.Env) A)
    → Keeps I body
    → Keeps I (locked p lock otherwise body)
unfolding locked
Keeps-locked {I} p {A} lock otherwise body h =
    Keeps-bind _ _ (Keeps-call _)
      (λ got. Keeps-branch got _ _ (Keeps-done _) (Keeps-bind _ _ h (λ a. search keeps_rules)))
