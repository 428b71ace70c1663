-- ===== src/Header/Tests.antt =====
-- A header of three columns, and the theorems at it.
use htop.Prelude.{ℕ, ◌+◌, ◌≡◌, refl, true, false, [], ◌∷◌, length, ◌==◌}
use htop.Header.{HeaderLayout, Meter, Header, get_columns, calc_column_width_count, set_layout}
use htop.Header.Layout.{meters, set_layout-keeps}
use htop.Header.Beside.{Free, calc_column_width_count-Free}

abbrev bar : ℕ → Meter
bar class = record { class = class; param = 0; is_blank = false; h = 1; column_width_count = 1 }

abbrev header : Header
header = record {
  columns = (bar 1 ∷ bar 2 ∷ []) ∷ [] ∷ (bar 3 ∷ bar 4 ∷ []) ∷ [];
  layout = HeaderLayout.three_33_34_33;
  header_margin = true;
  pad = 2;
  height = 4;
}

span_run : calc_column_width_count 2 1 2 ([] ∷ (bar 3 ∷ []) ∷ []) ≡ 2
unfolding calc_column_width_count
span_run = refl

set_layout-keeps_example :
    (length (set_layout header HeaderLayout.two_33_67).columns ≡ 2)
    × ((set_layout header HeaderLayout.two_33_67).layout ≡ HeaderLayout.two_33_67)
    × (meters (λ class param. class == 4) (set_layout header HeaderLayout.two_33_67).columns
        ≡ meters (λ class param. class == 4) header.columns)
unfolding get_columns
set_layout-keeps_example =
    set_layout-keeps header HeaderLayout.two_33_67 (λ class param. class == 4) refl

calc_column_width_count-Free_example :
    (n : ℕ) × (calc_column_width_count 2 1 2 ([] ∷ (bar 3 ∷ []) ∷ []) ≡ 1 + n)
    × Free 2 1 2 ([] ∷ (bar 3 ∷ []) ∷ []) n
calc_column_width_count-Free_example = calc_column_width_count-Free 2 1 2 ([] ∷ (bar 3 ∷ []) ∷ [])
