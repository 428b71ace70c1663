-- ===== src/ColumnsPanel.antt =====
-- ColumnsPanel.c: the setup panel of the columns. Its list items are pointers, `key` and `item_moving`
-- give their fields. `flags_of` are the flags of a process field, 0 for a dynamic column; `is_graph` is
-- isgraph, `begins` and `value` are those of Panel_selectByTyping.
pub mod Last
pub mod Events
mod Tests
use htop.Prelude.{
  ℕ, zero, suc, ◌+◌, ◌-◌, ◌==◌, Bool, true, false, not, ◌&&◌, Option, none, some, List, [], ◌∷◌,
  if◌then◌else◌,
}
use Prim.Native.Nat.{bit_or}
use htop.Prelude.Int.{ℤ, pos, pos_part, ltb_ℤ, ◌-ℤ◌}
use htop.Panel
use htop.Panel.{Panel}
use htop.Panel.Typing
use htop.Panel.Typing.{HandlerResult, handled, ignored, break_loop}

pub record ColumnsPanel : Type 0 where
  pub panel : Panel ℕ
  pub key : ℕ → ℕ
  pub item_moving : ℕ → Bool
  pub moving : Bool
  -- Of the settings.
  pub fields : List ℕ
  pub flags : ℕ
  pub changed : Bool

pub data Key : Type 0 where
  -- Enter or the mouse; the arrows; F7, [ and -; F8, ] and +; F9 and Del.
  enter up down move_up move_down remove : Key
  other : ℤ → Key

-- The keys of `n` lines from index `i` on.
unfoldable pub keys_from : (ℕ → ℕ) → Panel ℕ → ℕ → ℕ → List ℕ
unfolding Panel.get
keys_from key p zero i = []
keys_from key p (suc n) i = elim (Panel.get p i) [
  | none ↦ []
  | some item ↦ key item ∷ keys_from key p n (i + 1)
]

abbrev pub all_flags : (ℕ → ℕ) → List ℕ → ℕ
all_flags flags_of [] = 0
all_flags flags_of (k ∷ ks) = bit_or (flags_of k) (all_flags flags_of ks)

-- The item's flag while it is moved.
unfoldable pub mark_selected : ColumnsPanel → Bool → ColumnsPanel
unfolding Panel.get_selected
mark_selected t moving = elim (Panel.get_selected t.panel) [
  | none ↦ t
  | some item ↦ record t { item_moving = λ i. if i == item then moving else t.item_moving i }
]

-- `ColumnsPanel_update`; the NUL behind the fields is left out.
unfoldable pub update : (ℕ → ℕ) → ColumnsPanel → ColumnsPanel
unfolding keys_from
update flags_of t =
    let keys = keys_from t.key t.panel t.panel.items.items 0 in
    record t { changed = true; fields = keys; flags = all_flags flags_of keys }

-- The moves and the removal, which spare the last line.
unfoldable pub raise : ColumnsPanel → ColumnsPanel
unfolding Panel.move_selected_up
raise t =
    if ltb_ℤ t.panel.selected (Panel.size t.panel -ℤ pos 1)
    then record t { panel = Panel.move_selected_up t.panel }
    else t

unfoldable pub lower : ColumnsPanel → ColumnsPanel
unfolding Panel.move_selected_down
lower t =
    if ltb_ℤ t.panel.selected (Panel.size t.panel -ℤ pos 2)
    then record t { panel = Panel.move_selected_down t.panel }
    else t

unfoldable pub take_out : ColumnsPanel → ColumnsPanel
unfolding Panel.remove
take_out t =
    if ltb_ℤ t.panel.selected (Panel.size t.panel -ℤ pos 1)
    then record t { panel = (Panel.remove t.panel (pos_part t.panel.selected)).1 }
    else t

unfoldable pub switch : ColumnsPanel → HandlerResult × ColumnsPanel
unfolding mark_selected
switch t =
    if ltb_ℤ t.panel.selected (Panel.size t.panel -ℤ pos 1)
    then (handled, mark_selected (record t { moving = not t.moving }) (not t.moving))
    else (ignored, t)

-- The update behind a key that was handled.
unfoldable pub finish : (ℕ → ℕ) → HandlerResult × ColumnsPanel → HandlerResult × ColumnsPanel
unfolding update
finish flags_of (handled, u) = (handled, update flags_of u)
finish flags_of (r, u) = (r, u)

module _ (is_graph : ℕ → Bool) (begins : List ℕ → List ℕ → Bool) (value : ℕ → List ℕ)
    (flags_of : ℕ → ℕ) where
  unfoldable pub type_key : ColumnsPanel → ℤ → HandlerResult × ColumnsPanel
  unfolding Typing.select_by_typing
  type_key t ch =
      if ltb_ℤ (pos 0) ch && ltb_ℤ ch (pos 255) && is_graph (pos_part ch)
      then (let (result, p) = Typing.select_by_typing is_graph begins value none t.panel ch in
          (unless_break result, record t { panel = p }))
      else (ignored, t)
    where
      unless_break : HandlerResult → HandlerResult
      unless_break break_loop = ignored
      unless_break r = r

  unfoldable pub perform : ColumnsPanel → Key → HandlerResult × ColumnsPanel
  unfolding switch raise lower take_out type_key
  perform t enter = switch t
  perform t up = if t.moving then (handled, raise t) else (ignored, t)
  perform t down = if t.moving then (handled, lower t) else (ignored, t)
  perform t move_up = (handled, raise t)
  perform t move_down = (handled, lower t)
  perform t remove = (handled, take_out t)
  perform t (other ch) = type_key t ch

  -- `ColumnsPanel_eventHandler`
  unfoldable pub handle_event : ColumnsPanel → Key → HandlerResult × ColumnsPanel
  unfolding perform
  handle_event t k = finish flags_of (perform t k)
