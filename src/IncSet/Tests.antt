-- ===== src/IncSet/Tests.antt =====
-- The theorems on IncSet.c at a panel of three lines.
use htop.Prelude.{
  ℕ, ◌≡◌, inl, refl, Bool, true, false, none, some, List, [], ◌∷◌, arith, ltb, ◌==◌, ◌&&◌, get_or,
  if◌then◌else◌,
}
use htop.Prelude.Int.{pos}
use htop.Vector.{Vector}
use htop.Vector.Contents.{Holds}
use htop.Panel.{Panel, set_selected}
use htop.IncSet.{IncSet, Key, inc_filter, find, step_index, update_weak_panel}
use htop.IncSet.Find.{Found, find-Found}
use htop.IncSet.Weak.{kept, update_weak_panel-Holds}
use htop.IncSet.Keys.{handle_key}
use htop.IncSet.Keys.Buffer.{IsValid, Keeps, handle_key-IsValid}

abbrev lines : List ℕ
lines = b'a' ∷ b'b' ∷ b'a' ∷ []

abbrev line_vector : Vector ℕ
line_vector = record {
  array = some b'a' ∷ some b'b' ∷ some b'a' ∷ none ∷ [];
  array_size = 4;
  growth_rate = 10;
  items = 3;
  owner = false;
}

line_vector-Holds : Holds lines line_vector
line_vector-Holds = record { sized = refl; fits = omega arith; grows = omega arith; held = refl }

abbrev panel : Panel ℕ
panel = record {
  x = pos 0;
  y = pos 0;
  w = pos 10;
  h = pos 2;
  items = line_vector;
  selected = pos 2;
  old_selected = pos 1;
  selected_len = pos 1;
  scroll_v = pos 0;
  scroll_h = pos 0;
  needs_redraw = false;
  was_focus = true;
  header_len = 0;
  typed = [];
}

-- Whether a text has the first character of the part anywhere.
abbrev contains : List ℕ → List ℕ → Bool
contains xs [] = true
contains [] (c ∷ cs) = false
contains (x ∷ xs) (c ∷ cs) = if x == c then true else contains xs (c ∷ cs)

abbrev text : ℕ → List ℕ
text c = c ∷ []

abbrev value : Panel ℕ → ℕ → List ℕ
value p i = text (get_or lines i 0)

abbrev filter_set : IncSet
filter_set = record {
  search = record { buffer = []; index = 0; is_filter = false };
  filter = record { buffer = b'a' ∷ []; index = 1; is_filter = true };
  active = some inc_filter;
  filtering = true;
  found = true;
}

filter_set-IsValid : IsValid filter_set
filter_set-IsValid = ground arith

-- The next line that has an `a`, from the last line on, is the first one.
find_run :
    find contains value none filter_set.filter panel true
    ≡ some (true, record panel { selected = pos 0 })
unfolding find step_index set_selected
find_run = refl

find-Found_example :
    Found contains value none
      (b'a' ∷ [])
      panel
      2
      (find contains value none filter_set.filter panel true)
find-Found_example =
    find-Found contains value none filter_set.filter panel true 2 refl (omega arith)

update_weak_panel-Holds_example :
    Holds
      (kept (λ x. contains (text x) (b'a' ∷ [])) lines)
      (update_weak_panel contains text ◌==◌ none filter_set panel line_vector).items
update_weak_panel-Holds_example =
    update_weak_panel-Holds contains text ◌==◌ filter_set panel line_vector lines lines
      line_vector-Holds line_vector-Holds

abbrev is_print : ℕ → Bool
is_print c = ltb 31 c && ltb c 127

handle_key-IsValid_example : Keeps is_print contains value text ◌==◌ none (
    handle_key is_print contains value text ◌==◌ none filter_set Key.backspace panel
      (some line_vector))
handle_key-IsValid_example =
    handle_key-IsValid is_print contains value text ◌==◌ none filter_set inc_filter Key.backspace
      panel (some line_vector) 2 refl filter_set-IsValid refl (inl (omega arith))
