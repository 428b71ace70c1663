-- ===== src/Panel/Draw/Visible.antt =====
-- Drawing a panel brings its selection into view.
use htop.Prelude.{ℕ, ◌+◌, ◌<◌, ◌≡◌, refl, ◌∙◌, Bool, false, arith}
use htop.Prelude.Int.{pos, ◌+ℤ◌, ◌≤ℤ◌}
use htop.Panel.{Panel}
use htop.Panel.Draw.{line_height, scroll_into_area, scroll_to_selection, draw}

module _ {ℓ} {A : Type ℓ} where
  scroll_to_selection-visible :
      (p : Panel A) (h n : ℕ)
      → 0 < h
      → p.selected ≡ pos n
      → pos 0 ≤ℤ p.scroll_v
      → let q = scroll_to_selection p (pos h) in
        (pos 0 ≤ℤ q.scroll_v)
        × (q.scroll_v ≤ℤ pos n)
        × (pos (n + 1) ≤ℤ q.scroll_v +ℤ pos h)
        × (q.selected ≡ pos n)
        × (q.items ≡ p.items)
  unfolding scroll_to_selection
  scroll_to_selection-visible p h n pos_h e low = ground arith

  scroll_into_area-low :
      (p : Panel A) (h : ℕ)
      → (pos 0 ≤ℤ (scroll_into_area p (pos h)).scroll_v)
        × ((scroll_into_area p (pos h)).selected ≡ p.selected)
        × ((scroll_into_area p (pos h)).items ≡ p.items)
  unfolding scroll_into_area
  scroll_into_area-low p h = ground arith

  -- Where there is a line to draw on and the selection is not negative, drawing leaves the first
  -- line shown not negative and the selected line among those shown, changes neither the
  -- selection nor the items, and marks the panel as drawn with that selection and focus.
  pub draw_visible :
      (p : Panel A) (focus hide : Bool) (h n : ℕ)
      → line_height p hide ≡ pos h
      → 0 < h
      → p.selected ≡ pos n
      → let q = draw p focus hide in
        (pos 0 ≤ℤ q.scroll_v)
        × (q.scroll_v ≤ℤ pos n)
        × (pos (n + 1) ≤ℤ q.scroll_v +ℤ pos h)
        × (q.selected ≡ pos n)
        × (q.old_selected ≡ pos n)
        × (q.items ≡ p.items)
        × (q.needs_redraw ≡ false)
        × (q.was_focus ≡ focus)
  unfolding draw
  draw_visible p focus hide h n lines pos_h e =
      let (low, same, items) = scroll_into_area-low p h in
      let (a, b, c, d, items') =
        scroll_to_selection-visible (scroll_into_area p (pos h)) h n pos_h (same ∙ e) low in
      rw (draw, lines) (a, b, c, d, d, items' ∙ items, refl, refl)
