-- ===== src/ScreenManager/Tests.antt =====
-- Two panels on a terminal of eighty columns.
use htop.Prelude.{ℕ, true, false, [], ◌∷◌}
use htop.Prelude.Int.{ℤ, pos, negsuc}
use htop.Panel.{Panel}
use htop.ScreenManager.{ScreenManager}

abbrev panel : ℤ → Panel ℕ
panel w = record {
  x = pos 0;
  y = pos 0;
  w = w;
  h = pos 1;
  items = record { array = []; array_size = 0; growth_rate = 10; items = 0; owner = false };
  selected = pos 0;
  old_selected = pos 0;
  selected_len = pos 0;
  scroll_v = pos 0;
  scroll_h = pos 0;
  needs_redraw = false;
  was_focus = false;
  header_len = 0;
  typed = [];
}

abbrev screen : ScreenManager ℕ
screen = record {
  x1 = pos 0;
  y1 = pos 0;
  x2 = pos 0;
  y2 = negsuc 0;
  panels = panel (pos 16) ∷ panel (pos 7) ∷ [];
  header_height = pos 4;
  allow_focus_change = true;
}
