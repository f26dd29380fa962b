-- ===== src/Assisant/Observe.antt =====
-- What a run does to a view of the state: a map from keys to values.
pub mod Dispatch
use find_friend_bot.Base.{
  ◌≡◌, refl, ◌∙◌, Bool, true, false, Text, Cmd, Returns, Returns-bind, Returns-mono, and_then,
  if◌then◌else◌,
}

module _ {W V : Type 0} (view : W → Text → V) where
  -- The run does to the view what `f` says.
  abbrev pub Does : {A : Type 0} → ((Text → V) → Text → V) → W → Cmd W A → Type 0
  Does f w x = Returns (λ _ w'. (key : Text) → view w' key ≡ f (view w) key) (x w)

  pub Does-if :
      {A : Type 0} (b : Bool) (f g : (Text → V) → Text → V) (w : W) (x y : Cmd W A)
      → (b ≡ true → Does f w x)
      → Does g w y
      → Does (λ d. if b then f d else g d) w (if b then x else y)
  Does-if true f g w x y h k = h refl
  Does-if false f g w x y h k = k

  -- Both branches do the same.
  pub Does-same :
      {A : Type 0} (b : Bool) (f : (Text → V) → Text → V) (w : W) (x y : Cmd W A)
      → Does f w x
      → Does f w y
      → Does f w (if b then x else y)
  Does-same true f w x y h k = h
  Does-same false f w x y h k = k

  -- What comes behind it leaves the view alone.
  pub Does-then :
      {A B : Type 0} (f : (Text → V) → Text → V) (w : W) (x : Cmd W A) (k : A → Cmd W B)
      → Does f w x
      → ((a : A) (w1 : W) → Does (λ d. d) w1 (k a))
      → Does f w (λ w0. and_then (x w0) k)
  Does-then f w x k first rest =
      Returns-bind first λ a w1 did. Returns-mono (rest a w1) λ _ w' same key. same key ∙ did key
