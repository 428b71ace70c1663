-- ===== src/FunctionBar/Events.antt =====
-- A click on the bar gives the event of the entry that is drawn there.
use htop.Prelude.{
  ℕ, zero, suc, ◌+◌, ◌≤◌, ◌<◌, ◌≡◌, refl, ap, subst, ◌∙◌, ◌⊎◌, inl, inr, none, arith, ltb,
  Bool-cases, get_or,
}
use native.Mathlib.Numerals.{add-one}
use htop.Prelude.Int.{ℤ}
use htop.FunctionBar.{
  FunctionBar, err, width, draw_loop, draw_extra, synthesize_loop, synthesize_event,
}

-- The column in which the entry at an index begins.
abbrev pub column_of : FunctionBar → ℕ → ℕ
column_of b zero = 0
column_of b (suc i) = column_of b i + width b i

-- The entry that has the column, or none if the column is behind them all.
abbrev pub IsEvent : FunctionBar → ℕ → ℤ → Type 0
IsEvent b column e =
    ((i : ℕ) × (i < b.size)
      × (column_of b i ≤ column)
      × (column < column_of b i + width b i)
      × (e ≡ get_or b.events i err))
    ⊎ ((column_of b b.size ≤ column) × (e ≡ err))

synthesize_loop-IsEvent :
    (b : FunctionBar) (n i column : ℕ)
    → i + n ≡ b.size
    → column_of b i ≤ column
    → IsEvent b column (synthesize_loop b n i (column_of b i) column)
unfolding synthesize_loop
synthesize_loop-IsEvent b zero i column e le =
    let last : i ≡ b.size = omega (arith, e) in
    inr (subst (λ k. column_of b k ≤ column) last le, refl)
synthesize_loop-IsEvent b (suc n) i column e le =
    elim (Bool-cases (ltb column (column_of b i + width b i))) [
      | inl here ↦ rw here (inl (i, omega (arith, e), le, ground arith, refl))
      | inr later ↦
          rw (later, add-one)
            (synthesize_loop-IsEvent b n (suc i) column (omega (arith, e)) (ground arith))
    ]

draw_loop-eq-column_of :
    (b : FunctionBar) (n i : ℕ) → draw_loop b n i (column_of b i) ≡ column_of b (i + n)
unfolding draw_loop
draw_loop-eq-column_of b zero i = let e : i ≡ i + 0 = omega arith in ap (column_of b) e
draw_loop-eq-column_of b (suc n) i =
    let e : suc i + n ≡ i + suc n = omega arith in
    rw (draw_loop, add-one) (draw_loop-eq-column_of b n (suc i) ∙ ap (column_of b) e)

-- `FunctionBar_synthesizeEvent` returns the event of the entry in whose columns the click is, as
-- `FunctionBar_drawExtra` lays them out, and ERR behind the column in which the entries end.
pub synthesize_event-IsEvent :
    (b : FunctionBar) (column : ℕ)
    → IsEvent b column (synthesize_event b column) × (draw_extra b none ≡ column_of b b.size)
unfolding synthesize_event draw_extra
synthesize_event-IsEvent b column = (
  synthesize_loop-IsEvent b b.size 0 column (omega arith) (omega arith),
  draw_loop-eq-column_of b b.size 0 ∙ ap (column_of b) last,
)
  where
    last : 0 + b.size ≡ b.size
    last = omega arith
