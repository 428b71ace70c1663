-- ===== src/Panel.antt =====
-- Panel.c: a scrolling list with a selected line. Panels are generic in their objects. An `int` that
-- may be negative is a ℤ. What `Panel_draw` prints through curses is not modelled, its scrolling is.
-- `on_select` is what the class's event handler does to the panel at EVENT_SET_SELECTED (`none` for
-- a class without one). Where the source reads the selected line, the selection is not negative (it
-- asserts so); the model reads a negative one as 0.
pub mod Keys
pub mod Selection
pub mod Draw
pub mod Typing
mod Tests
use htop.Prelude.{
  ℕ, zero, suc, ◌+◌, ◌-◌, Bool, true, false, Option, none, some, List, [], ◌∷◌, ltb, leb, ◌==◌,
  ◌&&◌, ◌||◌, if◌then◌else◌, length,
}
use htop.Prelude.Int.{
  ℤ, pos, negsuc, pos_part, neg_part, ◌+ℤ◌, ◌-ℤ◌, ltb_ℤ, leb_ℤ, eqb_ℤ, max_ℤ, clamp_ℤ,
}
use htop.Vector
use htop.Vector.{Vector}

pub record Panel {ℓ} (A : Type ℓ) : Type ℓ where
  pub x : ℤ
  pub y : ℤ
  pub w : ℤ
  pub h : ℤ
  pub items : Vector A
  pub selected : ℤ
  pub old_selected : ℤ
  pub selected_len : ℤ
  pub scroll_v : ℤ
  pub scroll_h : ℤ
  pub needs_redraw : Bool
  pub was_focus : Bool
  pub header_len : ℕ
  -- The characters typed so far, which `Panel_selectByTyping` keeps in the handler's state.
  pub typed : List ℕ

-- The index that `Panel_setSelected` settles on.
unfoldable pub clamp_selected : ℤ → ℤ → ℤ
clamp_selected size selected =
    let s = if leb_ℤ size selected then size -ℤ pos 1 else selected in
    if ltb_ℤ s (pos 0) then pos 0 else s

module _ {ℓ} {A : Type ℓ} where
  abbrev pub size : Panel A → ℤ
  size p = pos p.items.items

  unfoldable pub init : ℤ → ℤ → ℤ → ℤ → Bool → Panel A
  unfolding Vector.new
  init x y w h owner = record {
    x = x;
    y = y;
    w = w;
    h = h;
    items = Vector.new none owner;
    selected = pos 0;
    old_selected = pos 0;
    selected_len = pos 0;
    scroll_v = pos 0;
    scroll_h = pos 0;
    needs_redraw = true;
    was_focus = false;
    header_len = 0;
    typed = [];
  }

  unfoldable pub move : Panel A → ℤ → ℤ → Panel A
  move p x y = record p { x = x; y = y; needs_redraw = true }

  unfoldable pub resize : Panel A → ℤ → ℤ → Panel A
  resize p w h = record p { w = w; h = h; needs_redraw = true }

  unfoldable pub prune : Panel A → Panel A × List A
  prune p =
      let (v, deleted) = Vector.prune p.items in
      (
        record p {
          items = v;
          scroll_v = pos 0;
          selected = pos 0;
          old_selected = pos 0;
          needs_redraw = true;
        },
        deleted,
      )

  unfoldable pub add : Panel A → A → Panel A
  add p a = record p { items = Vector.add p.items a; needs_redraw = true }

  unfoldable pub insert : Panel A → ℕ → A → Panel A
  insert p i a = record p { items = Vector.insert p.items i a; needs_redraw = true }

  unfoldable pub set : Panel A → ℕ → A → Panel A × List A
  set p i a = let (v, deleted) = Vector.set_item p.items i a in (record p { items = v }, deleted)

  -- The object returned, the panel, and what was deleted.
  unfoldable pub remove : Panel A → ℕ → Option A × Panel A × List A
  remove p i =
      let (removed, v, deleted) = Vector.remove p.items i in
      let low = ltb_ℤ (pos 0) p.selected && leb_ℤ (pos v.items) p.selected in
      (
        removed,
        record p {
          items = v;
          selected = if low then p.selected -ℤ pos 1 else p.selected;
          needs_redraw = true;
        },
        deleted,
      )

  unfoldable pub get : Panel A → ℕ → Option A
  get p i = Vector.get p.items i

  unfoldable pub get_selected_index : Panel A → ℤ
  get_selected_index p = p.selected

  unfoldable pub get_selected : Panel A → Option A
  get_selected p = if ltb_ℤ (pos 0) (size p) then Vector.get p.items (pos_part p.selected) else none

  unfoldable pub move_selected_up : Panel A → Panel A
  move_selected_up p = record p {
    items = Vector.move_up p.items (pos_part p.selected);
    selected = if ltb_ℤ (pos 0) p.selected then p.selected -ℤ pos 1 else p.selected;
  }

  unfoldable pub move_selected_down : Panel A → Panel A
  move_selected_down p = record p {
    items = Vector.move_down p.items (pos_part p.selected);
    selected = if ltb_ℤ (p.selected +ℤ pos 1) (size p) then p.selected +ℤ pos 1 else p.selected;
  }

  unfoldable pub set_selected : Option (Panel A → Panel A) → Panel A → ℤ → Panel A
  unfolding clamp_selected
  set_selected on_select p selected =
      let q : Panel A = record p { selected = clamp_selected (size p) selected } in
      elim on_select [ none ↦ q | some handle ↦ handle q ]

  unfoldable pub splice : Panel A → Vector A → Option (Panel A)
  splice p from = elim (Vector.splice p.items from) [
    | none ↦ none
    | some items ↦ some (record p { items = items; needs_redraw = true })
  ]

  unfoldable pub header_height : Panel A → ℤ
  header_height p = if ltb 0 p.header_len then pos 1 else pos 0
