-- ===== src/ScreenManager/Tiles.antt =====
-- `ScreenManager_resize` puts the panels side by side.
use htop.Prelude.{◌≡◌, refl, true, false, List, [], ◌∷◌, length}
use htop.Prelude.Int.{ℤ, pos, ◌+ℤ◌, ◌-ℤ◌}
use htop.Panel.{Panel}
use htop.ScreenManager.{ScreenManager, height, resize_loop, resize}

module _ {ℓ} {A : Type ℓ} where
  -- One panel after the other from the column `x` on, a column apart and all of one height and top;
  -- all but the last as wide as in `old`, the last up to the column `edge`.
  abbrev pub Tiles : ℤ → ℤ → ℤ → ℤ → List (Panel A) → List (Panel A) → Type 0
  Tiles edge high top x [] [] = true ≡ true
  Tiles edge high top x [] (p ∷ ps) = true ≡ false
  Tiles edge high top x (o ∷ os) [] = true ≡ false
  Tiles edge high top x (o ∷ []) (p ∷ ps) =
      (p.x ≡ x) × (p.y ≡ top) × (p.h ≡ high) × (p.w ≡ edge -ℤ x) × (length ps ≡ 0)
  Tiles edge high top x (o ∷ o' ∷ os) (p ∷ ps) =
      (p.x ≡ x)
      × (p.y ≡ top)
      × (p.h ≡ high)
      × (p.w ≡ o.w)
      × Tiles edge high top (x +ℤ o.w +ℤ pos 1) (o' ∷ os) ps

  resize_loop-Tiles :
      (edge high top x : ℤ) (ps : List (Panel A))
      → Tiles edge high top x ps (resize_loop edge high top x ps)
  unfolding resize_loop
  resize_loop-Tiles edge high top x [] = refl
  resize_loop-Tiles edge high top x (p ∷ []) = (refl, refl, refl, refl, refl)
  resize_loop-Tiles edge high top x (p ∷ q ∷ ps) =
      (refl, refl, refl, refl, resize_loop-Tiles edge high top (x +ℤ p.w +ℤ pos 1) (q ∷ ps))

  -- After `ScreenManager_resize` the panels stand side by side from the first column on, a column
  -- apart, below the header, all but the last as wide as before; the last one reaches the edge.
  pub resize-Tiles :
      (lines cols : ℤ) (s : ScreenManager A)
      → Tiles
          (cols -ℤ s.x1 +ℤ s.x2)
          (height lines s)
          (s.y1 +ℤ s.header_height)
          (pos 0)
          s.panels
          (resize lines cols s).panels
  unfolding resize
  resize-Tiles lines cols s =
      resize_loop-Tiles (cols -ℤ s.x1 +ℤ s.x2) (height lines s) (s.y1 +ℤ s.header_height) (pos 0)
        s.panels
