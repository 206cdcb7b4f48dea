-- ===== src/Platform/Keeps.antt =====
-- Pieces of the program that leave the shared context and the wire alone.
use esp32_web_chat.Common.{◌≡◌, refl, List, Bool, true, false, Option, none, some, if◌then◌else◌}
use esp32_web_chat.Platform.{Run, World, AppContext, Frame}

-- What the rest of the program, and its clients, can see of a world.
abbrev pub seen : {Env : Type 0} → World Env → AppContext × List Frame
seen w = (w.ctx, w.frames)

abbrev pub Quiet : {Env A : Type 0} → Run Env A → Type 0
Quiet {Env} m = (w : World Env) → seen (m w).1 ≡ seen w

-- A property of what a piece of the program does, by the branch that it takes.
module _ {Env A : Type 0} (P : A × World Env → Type 0) where
  pub branch :
      (b : Bool) (n y : Run Env A) (w : World Env)
      → (b ≡ false → P (n w))
      → (b ≡ true → P (y w))
      → P ((elim b as (λ x. Run Env A) [ false ↦ n | true ↦ y ]) w)
  branch false n y w f t = f refl
  branch true n y w f t = t refl

  pub option_branch :
      {X : Type 0} (o : Option X) (n : Run Env A) (y : X → Run Env A) (w : World Env)
      → (o ≡ none → P (n w))
      → ((x : X) → o ≡ some x → P (y x w))
      → P ((elim o as (λ x. Run Env A) [ none ↦ n | some x ↦ y x ]) w)
  option_branch none n y w f t = f refl
  option_branch (some x) n y w f t = t x refl

  pub if_branch :
      (b : Bool) (x y : A × World Env)
      → (b ≡ true → P x)
      → (b ≡ false → P y)
      → P (if b then x else y)
  if_branch true x y t f = t refl
  if_branch false x y t f = f refl
