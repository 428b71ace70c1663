-- ===== src/Panel/Tests.antt =====
-- The theorems on Panel.c at a panel of three lines, of which two fit.
use htop.Prelude.{
  ℕ, ◌≤◌, ◌≡◌, refl, Bool, true, false, none, some, List, [], ◌∷◌, arith, ltb, ◌==◌, ◌&&◌, length,
  get_elem?, remove_at,
}
use htop.Prelude.Int.{pos, ◌+ℤ◌, ◌≤ℤ◌}
use htop.Vector.Contents.{Holds}
use htop.Panel.{Panel, remove}
use htop.Panel.Keys.{Key, on_key}
use htop.Panel.Keys.Bounds.{InBounds, on_key-InBounds}
use htop.Panel.Draw.{line_height, draw}
use htop.Panel.Draw.Visible.{draw_visible}
use htop.Panel.Selection.{remove-InBounds}
use htop.Panel.Typing.{buffer_max, handled, skip_spaces, type_char, typed_char, select_by_typing}
use htop.Panel.Typing.Found.{matches, typed-select_by_typing, select_by_typing-finds}

abbrev lines : List ℕ
lines = b'a' ∷ b'b' ∷ b'c' ∷ []

abbrev panel : Panel ℕ
panel = record {
  x = pos 0;
  y = pos 0;
  w = pos 10;
  h = pos 2;
  items = record {
    array = some b'a' ∷ some b'b' ∷ some b'c' ∷ none ∷ [];
    array_size = 4;
    growth_rate = 10;
    items = 3;
    owner = false;
  };
  selected = pos 1;
  old_selected = pos 1;
  selected_len = pos 1;
  scroll_v = pos 0;
  scroll_h = pos 0;
  needs_redraw = false;
  was_focus = true;
  header_len = 0;
  typed = [];
}

panel-Holds : Holds lines panel.items
panel-Holds = record { sized = refl; fits = omega arith; grows = omega arith; held = refl }

-- At the last line the down key stays there.
down_run : (on_key (pos 5) (pos 10) (record panel { selected = pos 2 }) Key.down).1.selected ≡ pos 2
unfolding on_key
down_run = refl

down_is_handled : (on_key (pos 5) (pos 10) panel Key.down).0 ≡ true
unfolding on_key
down_is_handled = refl

on_key-InBounds_example :
    let (done, p) = on_key (pos 5) (pos 10) panel Key.down in InBounds p × (p.items ≡ panel.items)
on_key-InBounds_example = on_key-InBounds (pos 5) (pos 10) panel Key.down down_is_handled

line_height_run : line_height panel false ≡ pos 2
unfolding line_height
line_height_run = refl

draw_visible_example :
    let q = draw panel true false in
    (pos 0 ≤ℤ q.scroll_v)
    × (q.scroll_v ≤ℤ pos 1)
    × (pos 2 ≤ℤ q.scroll_v +ℤ pos 2)
    × (q.selected ≡ pos 1)
    × (q.old_selected ≡ pos 1)
    × (q.items ≡ panel.items)
    × (q.needs_redraw ≡ false)
    × (q.was_focus ≡ true)
draw_visible_example = draw_visible panel true false 2 1 line_height_run (omega arith) refl

remove-InBounds_example :
    Holds (remove_at 2 lines) (remove panel 2).1.items × InBounds (remove panel 2).1
remove-InBounds_example = remove-InBounds panel lines 2 b'c' panel-Holds refl (ground arith)

abbrev is_graph : ℕ → Bool
is_graph c = ltb 32 c && ltb c 127

-- A line's text begins with the buffer, cases told apart.
abbrev begins : List ℕ → List ℕ → Bool
begins text [] = true
begins [] (c ∷ cs) = false
begins (b ∷ bs) (c ∷ cs) = b == c && begins bs cs

abbrev value : ℕ → List ℕ
value c = c ∷ []

typed-select_by_typing_example :
    length (select_by_typing is_graph begins value none panel (pos b'c')).1.typed ≤ buffer_max
typed-select_by_typing_example =
    typed-select_by_typing is_graph begins value panel (pos b'c') (omega arith)

c_is_typed : typed_char [] b'c' ≡ some b'c'
unfolding typed_char
c_is_typed = refl

c_matches : matches is_graph begins value (type_char [] b'c') b'c' ≡ true
unfolding type_char skip_spaces
c_matches = refl

select_by_typing-finds_example :
    let (result, q) = select_by_typing is_graph begins value none panel (pos b'c') in
    (result ≡ handled)
    × (q.typed ≡ type_char [] b'c')
    × ((n : ℕ) × (x : ℕ) × (q.selected ≡ pos n)
        × (n ≤ 2)
        × (get_elem? lines n ≡ some x)
        × (matches is_graph begins value (type_char [] b'c') x ≡ true))
select_by_typing-finds_example =
    select_by_typing-finds is_graph begins value panel lines b'c' b'c' 2 b'c' panel-Holds
      (omega arith) (omega arith) refl c_is_typed refl c_matches
