-- ===== src/Panel/Keys.antt =====
-- `Panel_onKey`: what each key does to a panel.
pub mod Bounds
use htop.Prelude.{
  ℕ, zero, suc, ◌+◌, ◌-◌, Bool, true, false, Option, none, some, List, [], ◌∷◌, ltb, leb, ◌==◌,
  ◌&&◌, ◌||◌, if◌then◌else◌, length,
}
use htop.Prelude.Int.{
  ℤ, pos, negsuc, pos_part, neg_part, ◌+ℤ◌, ◌-ℤ◌, ltb_ℤ, leb_ℤ, eqb_ℤ, max_ℤ, clamp_ℤ,
}
use htop.Panel.{Panel, size, header_height}

-- The keys that the switch of `Panel_onKey` tells apart: curses' own, and characters by their code.
pub data Key : Type 0 where
  down up left right page_up page_down wheel_up wheel_down home end : Key
  char : ℕ → Key
  other : ℕ → Key

-- The cases of the switch.
pub data Command : Type 0 where
  next previous scroll_left scroll_right backward forward wheel_backward wheel_forward first last
        line_start line_end :
      Command

-- The case labels, KEY_CTRL('N') and its like written as their codes.
unfoldable pub command : Key → Option Command
command down = some next
command up = some previous
command left = some scroll_left
command right = some scroll_right
command page_up = some backward
command page_down = some forward
command wheel_up = some wheel_backward
command wheel_down = some wheel_forward
command home = some first
command end = some last
command (char c) =
    if c == 14
    then some next
    else if c == 16
    then some previous
    else if c == 2
    then some scroll_left
    else if c == 6
    then some scroll_right
    else if c == 1 || c == b'^'
    then some line_start
    else if c == 5 || c == b'$'
    then some line_end
    else none
command (other n) = none

module _ {ℓ} {A : Type ℓ} where
  -- The macro PANEL_SCROLL.
  unfoldable pub scroll : Panel A → ℤ → Panel A
  unfolding header_height
  scroll p amount = record p {
    selected = p.selected +ℤ amount;
    scroll_v =
        clamp_ℤ (p.scroll_v +ℤ amount) (pos 0) (max_ℤ (pos 0) (size p -ℤ p.h -ℤ header_height p));
    needs_redraw = true;
  }

  -- The body of the case of each command; `amount_h` and `amount_v` are CRT_scrollHAmount and
  -- CRT_scrollWheelVAmount.
  unfoldable pub perform : ℤ → ℤ → Panel A → Command → Panel A
  unfolding scroll
  perform amount_h amount_v p next = record p { selected = p.selected +ℤ pos 1 }
  perform amount_h amount_v p previous = record p { selected = p.selected -ℤ pos 1 }
  perform amount_h amount_v p scroll_left =
      if ltb_ℤ (pos 0) p.scroll_h
      then record p { scroll_h = p.scroll_h -ℤ max_ℤ amount_h (pos 0); needs_redraw = true }
      else p
  perform amount_h amount_v p scroll_right = record p {
    scroll_h = p.scroll_h +ℤ amount_h;
    needs_redraw = true;
  }
  perform amount_h amount_v p backward = scroll p (pos 0 -ℤ (p.h -ℤ header_height p))
  perform amount_h amount_v p forward = scroll p (p.h -ℤ header_height p)
  perform amount_h amount_v p wheel_backward = scroll p (pos 0 -ℤ amount_v)
  perform amount_h amount_v p wheel_forward = scroll p amount_v
  perform amount_h amount_v p first = record p { selected = pos 0 }
  perform amount_h amount_v p last = record p { selected = size p -ℤ pos 1 }
  perform amount_h amount_v p line_start = record p { scroll_h = pos 0; needs_redraw = true }
  perform amount_h amount_v p line_end = record p {
    scroll_h = max_ℤ (p.selected_len -ℤ p.w) (pos 0);
    needs_redraw = true;
  }

  -- "ensure selection within bounds"
  unfoldable pub settle : Panel A → Panel A
  settle p =
      if ltb_ℤ p.selected (pos 0) || eqb_ℤ (size p) (pos 0)
      then record p { selected = pos 0; needs_redraw = true }
      else if leb_ℤ (size p) p.selected
      then record p { selected = size p -ℤ pos 1; needs_redraw = true }
      else p

  unfoldable pub on_key : ℤ → ℤ → Panel A → Key → Bool × Panel A
  unfolding command perform settle
  on_key amount_h amount_v p key = elim (command key) [
    | none ↦ (false, p)
    | some c ↦ (true, settle (perform amount_h amount_v p c))
  ]
