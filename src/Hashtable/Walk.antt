-- ===== src/Hashtable/Walk.antt =====
-- The probe sequence: from an index on, round the table.
use htop.Prelude.{
  ℕ, zero, suc, ◌+◌, ◌-◌, ◌<◌, ◌≡◌, refl, ap, ◌∙◌, inl, inr, arith, leb, ◌==◌, Bool-cases,
}
use native.Mathlib.Nat.{mod-eq_of_lt}
use htop.Hashtable.{next, next_mod}

module _ (size : ℕ) where
  pub next-lt : (i : ℕ) → i < size → next size i < size
  unfolding next
  next-lt i h = ground arith

  -- The two ways in which the source steps to the next bucket agree.
  pub next_mod-eq-next : (i : ℕ) → i < size → next_mod size i ≡ next size i
  unfolding next next_mod
  next_mod-eq-next i h = elim (Bool-cases (i + 1 == size)) [
    | inl e ↦ let e' : i + 1 ≡ size = ground arith in rw (e, e') (grind arith)
    | inr ne ↦ rw ne (mod-eq_of_lt (ground arith))
  ]

  -- The index after `n` steps from `i`.
  unfoldable pub walk : ℕ → ℕ → ℕ
  walk i zero = i
  walk i (suc n) = walk (next size i) n

  pub walk-lt : (i n : ℕ) → i < size → walk i n < size
  unfolding walk
  walk-lt i zero h = h
  walk-lt i (suc n) h = walk-lt (next size i) n (next-lt i h)

  pub walk-suc : (i n : ℕ) → walk i (suc n) ≡ next size (walk i n)
  unfolding walk
  walk-suc i zero = refl
  walk-suc i (suc n) = walk-suc (next size i) n

  walk-up : (n i : ℕ) → i + n < size → walk i n ≡ i + n
  unfolding walk next
  walk-up zero i h = omega arith
  walk-up (suc n) i h =
      let e : next size i ≡ i + 1 = ground arith in
      ap (λ k. walk k n) e ∙ walk-up n (i + 1) (omega arith) ∙ omega arith

  walk-add : (m n i : ℕ) → walk i (m + n) ≡ walk (walk i m) n
  unfolding walk
  walk-add zero n i = let e : zero + n ≡ n = omega arith in ap (λ k. walk i k) e
  walk-add (suc m) n i =
      let e : suc m + n ≡ suc (m + n) = omega arith in
      ap (λ k. walk i k) e ∙ walk-add m n (next size i)

  walk_round : (i j : ℕ) → i < size → j < size → walk i (suc (size - 1 - i) + j) ≡ j
  unfolding next
  walk_round i j hi hj =
      let k = size - 1 - i in
      let last : walk i k ≡ size - 1 = walk-up k i (omega arith) ∙ omega arith in
      let first : walk i (suc k) ≡ 0 = walk-suc i k ∙ ap (next size) last ∙ ground arith in
      walk-add (suc k) j i ∙ ap (λ h. walk h j) first ∙ walk-up j 0 (omega arith) ∙ omega arith

  -- Every bucket is reached, in fewer steps than there are buckets.
  pub walk_reaches : (i j : ℕ) → i < size → j < size → (n : ℕ) × (n < size) × (walk i n ≡ j)
  walk_reaches i j hi hj = elim (Bool-cases (leb i j)) [
    | inl up ↦ (j - i, ground arith, walk-up (j - i) i (ground arith) ∙ ground arith)
    | inr round ↦ (suc (size - 1 - i) + j, ground arith, walk_round i j hi hj)
  ]
