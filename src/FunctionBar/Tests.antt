-- ===== src/FunctionBar/Tests.antt =====
-- A bar of two entries, and the theorem at a click on it.
use htop.Prelude.{◌≡◌, refl, none, [], ◌∷◌}
use htop.Prelude.Int.{pos}
use htop.FunctionBar.{FunctionBar, synthesize_event, set_label, draw_extra}
use htop.FunctionBar.Events.{IsEvent, column_of, synthesize_event-IsEvent}

abbrev bar : FunctionBar
bar = record {
  functions = (b'D' ∷ []) ∷ (b'C' ∷ []) ∷ [];
  keys = (b'E' ∷ b'n' ∷ []) ∷ (b'E' ∷ b's' ∷ []) ∷ [];
  events = pos 13 ∷ pos 27 ∷ [];
  size = 2;
}

click_run : synthesize_event bar 4 ≡ pos 27
unfolding synthesize_event
click_run = refl

set_label_run : (set_label bar (pos 27) []).functions ≡ (b'D' ∷ []) ∷ [] ∷ []
unfolding set_label
set_label_run = refl

synthesize_event-IsEvent_example :
    IsEvent bar 4 (synthesize_event bar 4) × (draw_extra bar none ≡ column_of bar 2)
synthesize_event-IsEvent_example = synthesize_event-IsEvent bar 4
