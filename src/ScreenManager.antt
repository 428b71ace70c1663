-- ===== src/ScreenManager.antt =====
-- ScreenManager.c: the row of panels of a screen. The vector of panels is the list of its objects
-- (Vector/Refine), `panelCount` its length; `header_height` is 0 for a screen without a header;
-- `lines` and `cols` are LINES and COLS of the terminal. The event loop is not modelled.
pub mod Tiles
mod Tests
use htop.Prelude.{
  ℕ, zero, suc, Bool, true, false, Option, none, some, List, [], ◌∷◌, ◌++◌, if◌then◌else◌, length,
  get_elem?, remove_at,
}
use htop.Prelude.Int.{ℤ, pos, negsuc, ◌+ℤ◌, ◌-ℤ◌, ltb_ℤ}
use htop.Panel
use htop.Panel.{Panel}

pub record ScreenManager {ℓ} (A : Type ℓ) : Type ℓ where
  pub x1 : ℤ
  pub y1 : ℤ
  pub x2 : ℤ
  pub y2 : ℤ
  pub panels : List (Panel A)
  pub header_height : ℤ
  pub allow_focus_change : Bool

module _ {ℓ} {A : Type ℓ} where
  unfoldable pub new : ℤ → ScreenManager A
  new header_height = record {
    x1 = pos 0;
    y1 = pos 0;
    x2 = pos 0;
    y2 = negsuc 0;
    panels = [];
    header_height = header_height;
    allow_focus_change = true;
  }

  unfoldable pub size : ScreenManager A → ℕ
  size s = length s.panels

  -- The column behind the last panel.
  unfoldable pub last_column : List (Panel A) → ℤ
  last_column [] = pos 0
  last_column (p ∷ []) = p.x +ℤ p.w +ℤ pos 1
  last_column (p ∷ q ∷ ps) = last_column (q ∷ ps)

  abbrev pub height : ℤ → ScreenManager A → ℤ
  height lines s = lines -ℤ (s.y1 +ℤ s.header_height) +ℤ s.y2

  unfoldable pub add : ℤ → ℤ → ScreenManager A → Panel A → ℤ → ScreenManager A
  unfolding last_column Panel.move Panel.resize
  add lines cols s item size =
      let last_x = last_column s.panels in
      let high = lines -ℤ s.y1 -ℤ s.header_height +ℤ s.y2 in
      let width = if ltb_ℤ (pos 0) size then size else cols -ℤ s.x1 +ℤ s.x2 -ℤ last_x in
      let p = Panel.move (Panel.resize item width high) last_x (s.y1 +ℤ s.header_height) in
      record s { panels = s.panels ++ p ∷ [] }

  -- `none` where the source's assertion fails.
  unfoldable pub remove : ScreenManager A → ℕ → Option (Panel A × ScreenManager A)
  remove s idx = elim (get_elem? s.panels idx) [
    | none ↦ none
    | some p ↦ some (p, record s { panels = remove_at idx s.panels })
  ]

  -- The panels from the one at column `last_x` on; the last one gets the columns that are left.
  unfoldable pub resize_loop : ℤ → ℤ → ℤ → ℤ → List (Panel A) → List (Panel A)
  unfolding Panel.move Panel.resize
  resize_loop edge high top last_x [] = []
  resize_loop edge high top last_x (p ∷ []) =
      Panel.move (Panel.resize p (edge -ℤ last_x) high) last_x top ∷ []
  resize_loop edge high top last_x (p ∷ q ∷ ps) =
      let r = Panel.move (Panel.resize p p.w high) last_x top in
      r ∷ resize_loop edge high top (r.x +ℤ r.w +ℤ pos 1) (q ∷ ps)

  unfoldable pub resize : ℤ → ℤ → ScreenManager A → ScreenManager A
  unfolding resize_loop
  resize lines cols s = record s {
    panels =
        resize_loop (cols -ℤ s.x1 +ℤ s.x2) (height lines s) (s.y1 +ℤ s.header_height) (pos 0)
          s.panels;
  }
