-- ===== src/ColumnsPanel/Tests.antt =====
-- Three columns, of which the second one is selected.
use htop.Prelude.{ℕ, refl, true, false, [], ◌∷◌, arith}
use htop.Prelude.Int.{pos}
use htop.Vector.Contents.{Holds}
use htop.Panel
use htop.Panel.{Panel}
use htop.ColumnsPanel.{ColumnsPanel, Key, handle_event}
use htop.ColumnsPanel.Events.{Kept, handle_event-Kept}

abbrev lines : Panel ℕ
lines =
    record (Panel.add (Panel.add (Panel.add (Panel.init (pos 0) (pos 0) (pos 20) (pos 9) true) 7) 8)
      9) { selected = pos 1 }

lines-Holds : Holds (7 ∷ 8 ∷ 9 ∷ []) lines.items
unfolding Panel.add Panel.init htop.Vector.new htop.Vector.add htop.Vector.set_item
    htop.Vector.check_array_size
lines-Holds = record { sized = refl; fits = omega arith; grows = omega arith; held = refl }

abbrev columns : ColumnsPanel
columns = record {
  panel = lines;
  key = λ i. i;
  item_moving = λ i. false;
  moving = false;
  fields = 7 ∷ 8 ∷ 9 ∷ [];
  flags = 0;
  changed = false;
}

handle_event-Kept_example :
    Kept
      (7 ∷ 8 ∷ 9 ∷ [])
      columns
      (handle_event (λ c. true) (λ s t. true) (λ i. []) (λ k. 0) columns Key.move_up)
handle_event-Kept_example =
    handle_event-Kept (λ c. true) (λ s t. true) (λ i. []) (λ k. 0) columns (7 ∷ 8 ∷ 9 ∷ []) 1
      lines-Holds refl Key.move_up (λ ch e. cc)
