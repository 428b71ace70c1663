-- ===== src/Header.antt =====
-- Header.c and HeaderLayout.h: the meters in columns at the top of the screen. A meter is known by
-- its class and its parameter; its heights are not negative.
pub mod Layout
pub mod Beside
mod Tests
use htop.Prelude.{
  ℕ, zero, suc, ◌+◌, ◌-◌, ◌*◌, max, Bool, true, false, not, List, [], ◌∷◌, ◌++◌, length, get_or,
  ltb, leb, ◌==◌, if◌then◌else◌,
}

pub data HeaderLayout : Type 0 where
  two_50_50 two_33_67 two_67_33 three_33_34_33 three_25_25_50 three_25_50_25 three_50_25_25
        three_40_20_40 four_25_25_25_25 :
      HeaderLayout

unfoldable pub widths : HeaderLayout → List ℕ
widths two_50_50 = 50 ∷ 50 ∷ 0 ∷ 0 ∷ []
widths two_33_67 = 33 ∷ 67 ∷ 0 ∷ 0 ∷ []
widths two_67_33 = 67 ∷ 33 ∷ 0 ∷ 0 ∷ []
widths three_33_34_33 = 33 ∷ 34 ∷ 33 ∷ 0 ∷ []
widths three_25_25_50 = 25 ∷ 25 ∷ 50 ∷ 0 ∷ []
widths three_25_50_25 = 25 ∷ 50 ∷ 25 ∷ 0 ∷ []
widths three_50_25_25 = 50 ∷ 25 ∷ 25 ∷ 0 ∷ []
widths three_40_20_40 = 40 ∷ 20 ∷ 40 ∷ 0 ∷ []
widths four_25_25_25_25 = 25 ∷ 25 ∷ 25 ∷ 25 ∷ []

unfoldable pub get_columns : HeaderLayout → ℕ
get_columns two_50_50 = 2
get_columns two_33_67 = 2
get_columns two_67_33 = 2
get_columns three_33_34_33 = 3
get_columns three_25_25_50 = 3
get_columns three_25_50_25 = 3
get_columns three_50_25_25 = 3
get_columns three_40_20_40 = 3
get_columns four_25_25_25_25 = 4

pub record Meter : Type 0 where
  pub class : ℕ
  pub param : ℕ
  pub is_blank : Bool
  pub h : ℕ
  pub column_width_count : ℕ

-- `header_margin` is the setting.
pub record Header : Type 0 where
  pub columns : List (List Meter)
  pub layout : HeaderLayout
  pub header_margin : Bool
  pub pad : ℕ
  pub height : ℕ

-- The loop over the meters of a column to the right, from `height` on: whether one that is not blank
-- stands beside the lines from `top` to `top + h`.
unfoldable pub blocks : ℕ → ℕ → ℕ → List Meter → Bool
blocks top h height [] = false
blocks top h height (m ∷ ms) =
    if leb (top + h) height
    then false
    else if leb (height + m.h) top
    then blocks top h (height + m.h) ms
    else if not m.is_blank
    then true
    else blocks top h (height + m.h) ms

-- The loop over the columns to the right; `span` is `i - curColumn`.
unfoldable pub span_loop : ℕ → ℕ → ℕ → ℕ → List (List Meter) → ℕ
unfolding blocks
span_loop top h pad span [] = span
span_loop top h pad span (c ∷ cs) =
    if blocks top h pad c then span else span_loop top h pad (span + 1) cs

unfoldable pub calc_column_width_count : ℕ → ℕ → ℕ → List (List Meter) → ℕ
unfolding span_loop
calc_column_width_count top h pad right = span_loop top h pad 1 right

-- The loop over the meters of a column: its meters and its height.
unfoldable pub column_loop : ℕ → List (List Meter) → ℕ → List Meter → List Meter × ℕ
unfolding calc_column_width_count
column_loop pad right height [] = ([], height)
column_loop pad right height (m ∷ ms) =
    let (rest, bottom) = column_loop pad right (height + m.h) ms in
    (record m { column_width_count = calc_column_width_count height m.h pad right } ∷ rest, bottom)

unfoldable pub columns_loop : ℕ → ℕ → List (List Meter) → List (List Meter) × ℕ
unfolding column_loop
columns_loop pad max_height [] = ([], max_height)
columns_loop pad max_height (c ∷ cs) =
    let (column, height) = column_loop pad cs pad c in
    let (rest, bottom) = columns_loop pad (max max_height height) cs in (column ∷ rest, bottom)

unfoldable pub calculate_height : Header → Header
unfolding columns_loop
calculate_height t =
    let pad = if t.header_margin then 2 else 0 in
    let (columns, height) = columns_loop pad pad t.columns in
    record t { columns = columns; pad = pad; height = height }

-- The inner loop of setLayout: the meters of a column that goes, from the last one on.
unfoldable pub move_meters : List Meter → List Meter → List Meter
move_meters last [] = last
move_meters last (m ∷ ms) = move_meters last ms ++ m ∷ []

unfoldable pub move_columns : List Meter → List (List Meter) → List Meter
unfolding move_meters
move_columns last [] = last
move_columns last (c ∷ cs) = move_columns (move_meters last c) cs

-- `n + 1` columns stay; the ones behind them go into the last of those.
unfoldable pub shrink : ℕ → List (List Meter) → List (List Meter)
unfolding move_columns
shrink n [] = []
shrink zero (c ∷ cs) = move_columns c cs ∷ []
shrink (suc n) (c ∷ cs) = c ∷ shrink n cs

abbrev pub empty_columns : ℕ → List (List Meter)
empty_columns zero = []
empty_columns (suc n) = [] ∷ empty_columns n

unfoldable pub set_layout : Header → HeaderLayout → Header
unfolding get_columns shrink calculate_height
set_layout t layout =
    let old_columns = get_columns t.layout in
    let new_columns = get_columns layout in
    if new_columns == old_columns
    then record t { layout = layout }
    else if ltb old_columns new_columns
    then calculate_height (record t {
      layout = layout;
      columns = t.columns ++ empty_columns (new_columns - old_columns);
    })
    else calculate_height
        (record t { layout = layout; columns = shrink (new_columns - 1) t.columns })

unfoldable pub new : HeaderLayout → Bool → Header
unfolding get_columns
new layout header_margin = record {
  columns = empty_columns (get_columns layout);
  layout = layout;
  header_margin = header_margin;
  pad = 0;
  height = 0;
}

-- Header_addMeterByClass: `column` is one of the columns.
unfoldable pub add_meter : Header → Meter → ℕ → Header
add_meter t m column = record t { columns = add_at column t.columns }
  where
    add_at : ℕ → List (List Meter) → List (List Meter)
    add_at i [] = []
    add_at zero (c ∷ cs) = (c ++ m ∷ []) ∷ cs
    add_at (suc i) (c ∷ cs) = c ∷ add_at i cs
