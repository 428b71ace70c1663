-- ===== src/Header/Layout.antt =====
-- A change of the layout keeps the meters.
use htop.Prelude.{
  ℕ, zero, suc, ◌+◌, ◌-◌, ◌<◌, ◌≡◌, refl, max, Bool, List, [], ◌∷◌, ◌++◌, arith, length,
  length-append, ltb, ◌==◌, if◌then◌else◌, Bool-cases, ltb→lt, take, drop, inl, inr,
}
use htop.Prelude.Count.{count, count-append}
use htop.Header.{
  HeaderLayout, Meter, Header, widths, get_columns, column_loop, columns_loop, calculate_height,
  move_meters, move_columns, shrink, empty_columns, set_layout,
}

abbrev pub sum : List ℕ → ℕ
sum [] = 0
sum (n ∷ ns) = n + sum ns

-- How many meters of a header pass a test of their class and parameter.
abbrev pub meters : (ℕ → ℕ → Bool) → List (List Meter) → ℕ
meters q [] = 0
meters q (c ∷ cs) = count (λ (m : Meter). q m.class m.param) c + meters q cs

module _ (q : ℕ → ℕ → Bool) where
  abbrev has : Meter → Bool
  has m = q m.class m.param

  move_meters-count :
      (last c : List Meter) → count has (move_meters last c) ≡ count has last + count has c
  unfolding move_meters
  move_meters-count last [] = omega arith
  move_meters-count last (m ∷ ms) =
      omega (arith, move_meters-count last ms, count-append has (move_meters last ms) (m ∷ []))

  move_columns-count :
      (last : List Meter) (cs : List (List Meter))
      → count has (move_columns last cs) ≡ count has last + meters q cs
  unfolding move_columns
  move_columns-count last [] = omega arith
  move_columns-count last (c ∷ cs) =
      omega (arith, move_columns-count (move_meters last c) cs, move_meters-count last c)

  shrink-meters : (n : ℕ) (cs : List (List Meter)) → meters q (shrink n cs) ≡ meters q cs
  unfolding shrink
  shrink-meters n [] = refl
  shrink-meters zero (c ∷ cs) = omega (arith, move_columns-count c cs)
  shrink-meters (suc n) (c ∷ cs) = omega (arith, shrink-meters n cs)

  meters-append : (cs ds : List (List Meter)) → meters q (cs ++ ds) ≡ meters q cs + meters q ds
  meters-append [] ds = omega arith
  meters-append (c ∷ cs) ds = omega (arith, meters-append cs ds)

  empty-meters : (n : ℕ) → meters q (empty_columns n) ≡ 0
  empty-meters zero = refl
  empty-meters (suc n) = omega (arith, empty-meters n)

  column_loop-count :
      (pad : ℕ) (right : List (List Meter)) (height : ℕ) (c : List Meter)
      → count has (column_loop pad right height c).0 ≡ count has c
  unfolding column_loop
  column_loop-count pad right height [] = refl
  column_loop-count pad right height (m ∷ ms) =
      omega (arith, column_loop-count pad right (height + m.h) ms)

  columns_loop-meters :
      (pad top : ℕ) (cs : List (List Meter)) → meters q (columns_loop pad top cs).0 ≡ meters q cs
  unfolding columns_loop
  columns_loop-meters pad top [] = refl
  columns_loop-meters pad top (c ∷ cs) = omega (
    arith,
    column_loop-count pad cs pad c,
    columns_loop-meters pad (max top (column_loop pad cs pad c).1) cs,
  )

length-shrink : (n : ℕ) (cs : List (List Meter)) → n < length cs → length (shrink n cs) ≡ n + 1
unfolding shrink
length-shrink n [] h = absurd (omega arith)
length-shrink zero (c ∷ cs) h = omega arith
length-shrink (suc n) (c ∷ cs) h = omega (arith, length-shrink n cs (omega (arith, h)))

length-empty_columns : (n : ℕ) → length (empty_columns n) ≡ n
length-empty_columns zero = refl
length-empty_columns (suc n) = omega (arith, length-empty_columns n)

length-columns_loop :
    (pad top : ℕ) (cs : List (List Meter)) → length (columns_loop pad top cs).0 ≡ length cs
unfolding columns_loop
length-columns_loop pad top [] = refl
length-columns_loop pad top (c ∷ cs) =
    omega (arith, length-columns_loop pad (max top (column_loop pad cs pad c).1) cs)

columns-positive : (l : HeaderLayout) → 0 < get_columns l
unfolding get_columns
columns-positive HeaderLayout.two_50_50 = omega arith
columns-positive HeaderLayout.two_33_67 = omega arith
columns-positive HeaderLayout.two_67_33 = omega arith
columns-positive HeaderLayout.three_33_34_33 = omega arith
columns-positive HeaderLayout.three_25_25_50 = omega arith
columns-positive HeaderLayout.three_25_50_25 = omega arith
columns-positive HeaderLayout.three_50_25_25 = omega arith
columns-positive HeaderLayout.three_40_20_40 = omega arith
columns-positive HeaderLayout.four_25_25_25_25 = omega arith

calculate_height-length : (t : Header) → length (calculate_height t).columns ≡ length t.columns
unfolding calculate_height
calculate_height-length t =
    let pad = if t.header_margin then 2 else 0 in length-columns_loop pad pad t.columns

calculate_height-meters :
    (q : ℕ → ℕ → Bool) (t : Header) → meters q (calculate_height t).columns ≡ meters q t.columns
unfolding calculate_height
calculate_height-meters q t =
    let pad = if t.header_margin then 2 else 0 in columns_loop-meters q pad pad t.columns

-- A header has the columns of its layout; a new layout keeps that, and every meter.
pub set_layout-keeps :
    (t : Header) (layout : HeaderLayout) (q : ℕ → ℕ → Bool)
    → length t.columns ≡ get_columns t.layout
    → (length (set_layout t layout).columns ≡ get_columns layout)
      × ((set_layout t layout).layout ≡ layout)
      × (meters q (set_layout t layout).columns ≡ meters q t.columns)
unfolding set_layout calculate_height
set_layout-keeps t layout q e = elim (Bool-cases (get_columns layout == get_columns t.layout)) [
  | inl same ↦ rw (set_layout, same) (ground (arith, e, same), refl, refl)
  | inr other ↦ elim (Bool-cases (ltb (get_columns t.layout) (get_columns layout))) [
    | inl more ↦
        rw (set_layout, other, more)
          (
            omega (
              arith,
              calculate_height-length more_columns,
              length-append t.columns (empty_columns (get_columns layout - get_columns t.layout)),
              length-empty_columns (get_columns layout - get_columns t.layout),
              ltb→lt (get_columns t.layout) (get_columns layout) more,
              e,
            ),
            refl,
            omega (
              arith,
              calculate_height-meters q more_columns,
              meters-append q t.columns (empty_columns (get_columns layout - get_columns t.layout)),
              empty-meters q (get_columns layout - get_columns t.layout),
            ),
          )
    | inr less ↦
        rw (set_layout, other, less)
          (
            omega (
              arith,
              calculate_height-length fewer_columns,
              length-shrink (get_columns layout - 1) t.columns
                  (ground (arith, other, less, e, columns-positive layout)),
              columns-positive layout,
            ),
            refl,
            omega (
              arith,
              calculate_height-meters q fewer_columns,
              shrink-meters q (get_columns layout - 1) t.columns,
            ),
          )
  ]
]
  where
    more_columns : Header
    more_columns = record t {
      layout = layout;
      columns = t.columns ++ empty_columns (get_columns layout - get_columns t.layout);
    }

    fewer_columns : Header
    fewer_columns = record t {
      layout = layout;
      columns = shrink (get_columns layout - 1) t.columns;
    }

-- The widths of every layout fill the line, and belong to its columns alone.
pub widths-fill :
    (l : HeaderLayout)
    → (sum (take (get_columns l) (widths l)) ≡ 100)
      × (sum (drop (get_columns l) (widths l)) ≡ 0)
      × (length (widths l) ≡ 4)
unfolding get_columns widths
widths-fill HeaderLayout.two_50_50 = (refl, refl, refl)
widths-fill HeaderLayout.two_33_67 = (refl, refl, refl)
widths-fill HeaderLayout.two_67_33 = (refl, refl, refl)
widths-fill HeaderLayout.three_33_34_33 = (refl, refl, refl)
widths-fill HeaderLayout.three_25_25_50 = (refl, refl, refl)
widths-fill HeaderLayout.three_25_50_25 = (refl, refl, refl)
widths-fill HeaderLayout.three_50_25_25 = (refl, refl, refl)
widths-fill HeaderLayout.three_40_20_40 = (refl, refl, refl)
widths-fill HeaderLayout.four_25_25_25_25 = (refl, refl, refl)
