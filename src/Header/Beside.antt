-- ===== src/Header/Beside.antt =====
-- A meter spans the columns to its right that have nothing beside it.
use htop.Prelude.{
  ℕ, zero, suc, ◌+◌, ◌<◌, ◌≡◌, refl, sym, ◌∙◌, ap, map, none, true, false, leb, List, [], ◌∷◌, ◌++◌,
  arith, length, ◌⊎◌, some, get_elem?, Bool-cases, inl, inr,
}
use htop.Header.{Meter, blocks, span_loop, calc_column_width_count}
use htop.Header.Layout.{sum}

-- Some meter of the column that is not blank stands beside the lines from `top` to `top + h`, where
-- the column's first meter is at line `pad`.
abbrev pub Beside : ℕ → ℕ → ℕ → List Meter → Type 0
Beside top h pad c =
    (above : List Meter) × (m : Meter) × (below : List Meter) × (c ≡ above ++ m ∷ below)
    × (m.is_blank ≡ false)
    × (pad + sum (map (λ (n : Meter). n.h) above) < top + h)
    × (top < pad + sum (map (λ (n : Meter). n.h) above) + m.h)

Beside-below :
    (top h pad : ℕ) (m : Meter) (c : List Meter)
    → Beside top h (pad + m.h) c
    → Beside top h pad (m ∷ c)
Beside-below top h pad m c (above, n, below, parts, shown, starts, ends) =
    (m ∷ above, n, below, ap (λ x. m ∷ x) parts, shown, omega (arith, starts), omega (arith, ends))

blocks-Beside : (top h pad : ℕ) (c : List Meter) → blocks top h pad c ≡ true → Beside top h pad c
unfolding blocks
blocks-Beside top h pad [] e = cc
blocks-Beside top h pad (m ∷ c) e =
    let later : (blocks top h pad (m ∷ c) ≡ blocks top h (pad + m.h) c → Beside top h pad (m ∷ c)) =
      λ same. Beside-below top h pad m c (blocks-Beside top h (pad + m.h) c (sym same ∙ e)) in
    elim (Bool-cases (leb (top + h) pad)) [
      | inl under ↦
          let none_beside : blocks top h pad (m ∷ c) ≡ false = rw (blocks, under) refl in cc
      | inr starts ↦ elim (Bool-cases (leb (pad + m.h) top)) [
        | inl over ↦ later (rw (blocks, starts, over) refl)
        | inr ends ↦ elim (Bool-cases m.is_blank) [
          | inl blank ↦ later (rw (blocks, starts, ends, blank) refl)
          | inr shown ↦ ([], m, c, refl, shown, ground (arith, starts), ground (arith, ends))
        ]
      ]
    ]

Beside-blocks :
    (top h pad : ℕ) (above : List Meter) (m : Meter) (below : List Meter)
    → m.is_blank ≡ false
    → pad + sum (map (λ (n : Meter). n.h) above) < top + h
    → top < pad + sum (map (λ (n : Meter). n.h) above) + m.h
    → blocks top h pad (above ++ m ∷ below) ≡ true
unfolding blocks
Beside-blocks top h pad [] m below shown starts ends =
    let low : leb (top + h) pad ≡ false = ground (arith, starts) in
    let high : leb (pad + m.h) top ≡ false = ground (arith, ends) in
    rw (blocks, low, high, shown) refl
Beside-blocks top h pad (a ∷ rest) m below shown starts ends =
    let low : leb (top + h) pad ≡ false = ground (arith, starts) in
    let found : blocks top h (pad + a.h) (rest ++ m ∷ below) ≡ true =
      Beside-blocks top h (pad + a.h) rest m below shown (omega (arith, starts))
        (omega (arith, ends)) in
    elim (Bool-cases (leb (pad + a.h) top)) [
      | inl over ↦ rw (blocks, low, over) found
      | inr ends' ↦ elim (Bool-cases a.is_blank) [
        | inl blank ↦ rw (blocks, low, ends', blank) found
        | inr first ↦ rw (blocks, low, ends', first) refl
      ]
    ]

unblocked : (top h pad : ℕ) (c : List Meter) → blocks top h pad c ≡ false → ¬ (Beside top h pad c)
unblocked top h pad c e (above, m, below, parts, shown, starts, ends) =
    cc (ap (blocks top h pad) parts, Beside-blocks top h pad above m below shown starts ends, e)

-- No meter stands beside in `n` columns to the right, and there is no further column, or one does in
-- the next column.
abbrev pub Free : ℕ → ℕ → ℕ → List (List Meter) → ℕ → Type 0
Free top h pad right n =
    ((i : ℕ) → (c : List Meter) → i < n → get_elem? right i ≡ some c → ¬ (Beside top h pad c))
    × ((n ≡ length right) ⊎ ((c : List Meter) × (get_elem? right n ≡ some c) × Beside top h pad c))

span_loop-Free :
    (top h pad k : ℕ) (right : List (List Meter))
    → (n : ℕ) × (span_loop top h pad k right ≡ k + n) × Free top h pad right n
unfolding span_loop
span_loop-Free top h pad k [] = (0, omega arith, (λ i c lt. absurd (omega arith), inl refl))
span_loop-Free top h pad k (c ∷ cs) = elim (Bool-cases (blocks top h pad c)) [
  | inl blocked ↦ (
    0,
    rw (span_loop, blocked) (omega arith),
    (λ i d lt. absurd (omega arith), inr (c, refl, blocks-Beside top h pad c blocked)),
  )
  | inr free ↦
      let (n, e, (all, stop)) = span_loop-Free top h pad (k + 1) cs in
      (
        suc n,
        rw (span_loop, free) (omega (arith, e)),
        (below free all, elim stop [ inl every ↦ inl (ap suc every) | inr next ↦ inr next ]),
      )
]
  where
    below :
        blocks top h pad c ≡ false
        → {n : ℕ}
        → ((i : ℕ) → (d : List Meter) → i < n → get_elem? cs i ≡ some d → ¬ (Beside top h pad d))
        → (i : ℕ) → (d : List Meter) → i < suc n
        → get_elem? (c ∷ cs) i ≡ some d
        → ¬ (Beside top h pad d)
    below free all zero d lt at =
        unblocked top h pad d
          (sym (ap (λ o. elim o [ none ↦ true | some x ↦ blocks top h pad x ]) at) ∙ free)
    below free all (suc i) d lt at = all i d (omega arith) at

-- The width count of a meter is one more than the number of columns to its right, up to the first
-- one that has a meter that is not blank beside it.
pub calc_column_width_count-Free :
    (top h pad : ℕ) (right : List (List Meter))
    → (n : ℕ) × (calc_column_width_count top h pad right ≡ 1 + n) × Free top h pad right n
unfolding calc_column_width_count
calc_column_width_count-Free top h pad right = span_loop-Free top h pad 1 right
