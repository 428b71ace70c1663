-- ===== src/Panel/Draw.antt =====
-- How `Panel_draw` scrolls a panel before it prints it.
pub mod Visible
use htop.Prelude.{
  ℕ, zero, suc, ◌+◌, ◌-◌, Bool, true, false, Option, none, some, List, [], ◌∷◌, ltb, leb, ◌==◌,
  ◌&&◌, ◌||◌, if◌then◌else◌, length,
}
use htop.Prelude.Int.{
  ℤ, pos, negsuc, pos_part, neg_part, ◌+ℤ◌, ◌-ℤ◌, ltb_ℤ, leb_ℤ, eqb_ℤ, max_ℤ, clamp_ℤ,
}
use htop.Panel.{Panel, size}

module _ {ℓ} {A : Type ℓ} where
  -- The height for lines in `Panel_draw`.
  unfoldable pub line_height : Panel A → Bool → ℤ
  line_height p hide_function_bar =
      let h = if hide_function_bar then p.h +ℤ pos 1 else p.h in
      if ltb 0 p.header_len then h -ℤ pos 1 else h

  -- "ensure scroll area is on screen", then "ensure selection is on screen".
  unfoldable pub scroll_into_area : Panel A → ℤ → Panel A
  scroll_into_area p h =
      if ltb_ℤ p.scroll_v (pos 0)
      then record p { scroll_v = pos 0; needs_redraw = true }
      else if ltb_ℤ (size p -ℤ h) p.scroll_v
      then record p { scroll_v = max_ℤ (size p -ℤ h) (pos 0); needs_redraw = true }
      else p

  unfoldable pub scroll_to_selection : Panel A → ℤ → Panel A
  scroll_to_selection p h =
      if ltb_ℤ p.selected p.scroll_v
      then record p { scroll_v = p.selected; needs_redraw = true }
      else if leb_ℤ (p.scroll_v +ℤ h) p.selected
      then record p { scroll_v = p.selected -ℤ h +ℤ pos 1; needs_redraw = true }
      else p

  -- What `Panel_draw` does to the panel, besides the printing and `selectedLen`.
  unfoldable pub draw : Panel A → Bool → Bool → Panel A
  draw p focus hide_function_bar =
      let h = line_height p hide_function_bar in
      let q = scroll_to_selection (scroll_into_area p h) h in
      record q { old_selected = q.selected; was_focus = focus; needs_redraw = false }
