-- ===== src/Vector/Sort/Quick.antt =====
-- `quickSort` sorts its range, with fuel above the length of the range.
use htop.Prelude.{
  ℕ, zero, suc, ◌+◌, ◌-◌, ◌/◌, ◌≤◌, ◌<◌, ◌≡◌, ◌∙◌, inl, inr, Bool, true, false, List, arith, ltb,
  leb, ◌==◌, Bool-cases, length,
}
use htop.Vector.Sort.{partition, quick_sort}
use htop.Vector.Sort.Swap.{at, Rearranged, Rearranged-refl, Rearranged-trans, Rearranged-widen}
use htop.Vector.Sort.Partition.{IsPartition, partition_lem}

-- What the sorts need of a comparison function.
pub record IsPreorder {ℓ} {A : Type ℓ} (le : A → A → Bool) : Type ℓ where
  pub total : (a b : A) → le a b ≡ false → le b a ≡ true
  pub trans : (a b c : A) → le a b ≡ true → le b c ≡ true → le a c ≡ true

module _ {ℓ} {A : Type ℓ} (le : A → A → Bool) (null : A) where
  -- In order from index `lo` to below `hi`.
  abbrev pub IsSorted : ℕ → ℕ → List A → Type 0
  IsSorted lo hi xs = (i j : ℕ) → lo ≤ i → i < j → j < hi → le (at null xs i) (at null xs j) ≡ true

module _ {ℓ} {A : Type ℓ} {le : A → A → Bool} (order : IsPreorder le) (null : A) where
  -- Two sorted runs on the two sides of a pivot are one sorted run.
  IsSorted-of_parts :
      (left p stop : ℕ) (pivot : A) (xs : List A)
      → at null xs p ≡ pivot
      → ((k : ℕ) → left ≤ k → k < p → le (at null xs k) pivot ≡ true)
      → ((k : ℕ) → p < k → k < stop → le pivot (at null xs k) ≡ true)
      → IsSorted le null left p xs
      → IsSorted le null (p + 1) stop xs
      → IsSorted le null left stop xs
  IsSorted-of_parts left p stop pivot xs mid low high s1 s2 i j a b c =
      elim (Bool-cases (ltb j p)) [
        | inl j_low ↦ s1 i j a b (ground arith)
        | inr j_up ↦ elim (Bool-cases (ltb p i)) [
          | inl i_high ↦ s2 i j (ground arith) b c
          | inr i_low ↦ elim (Bool-cases (j == p)) [
            | inl j_mid ↦ let e : j ≡ p = ground arith in rw (e, mid) (low i a (ground arith))
            | inr j_high ↦ elim (Bool-cases (i == p)) [
              | inl i_mid ↦ let e : i ≡ p = ground arith in rw (e, mid) (high j (ground arith) c)
              | inr i_below ↦
                  order.trans _ pivot _ (low i a (ground arith)) (high j (ground arith) c)
            ]
          ]
        ]
      ]

  pub record Sorts (left stop : ℕ) (xs ys : List A) : Type ℓ where
    pub sorted : IsSorted le null left stop ys
    pub moved : Rearranged null left stop xs ys

  -- The two recursive calls after a partition.
  Sorts-of_partition :
      (left stop p : ℕ) (pivot : A) (xs ys zs ws : List A)
      → IsPartition le null pivot left (stop - 1) xs (p, ys)
      → 0 < stop
      → Sorts left p ys zs
      → Sorts (p + 1) stop zs ws
      → Sorts left stop xs ws
  Sorts-of_partition left stop p pivot xs ys zs ws part pos f g =
      let whole : suc (stop - 1) ≡ stop = omega arith in
      let before = λ (k : ℕ) (h : k ≤ p). g.moved.outside k (inl (omega arith)) in
      record {
        sorted =
            IsSorted-of_parts left p stop pivot ws
              (before p (omega arith) ∙ f.moved.outside p (inr (omega arith)) ∙ part.middle)
              (λ k a b.
                let (j, j1, j2, e) = f.moved.inside k a b in
                rw (before k (omega arith), e) (part.low j j1 j2))
              (λ k a b.
                let (j, j1, j2, e) = g.moved.inside k (omega arith) b in
                rw (e, f.moved.outside j (inr (omega arith)))
                  (order.total _ _ (part.high j (omega arith) (omega arith))))
              (λ i j a b c.
                rw (before i (omega arith), before j (omega arith)) (f.sorted i j a b c))
              g.sorted;
        moved = Rearranged-trans null (rw whole at part.moved) (
            Rearranged-trans null
              (Rearranged-widen null (omega arith) (omega (arith, part.upper)) f.moved)
              (Rearranged-widen null (omega (arith, part.lower)) (omega arith) g.moved));
      }

  -- For a total and transitive comparison, with fuel above the length of its range, `quickSort`
  -- terminates with the range in order: the array has the same items, the elements outside of the
  -- range are where they were, and those inside come from inside.
  pub quick_sort-Sorts :
      (fuel : ℕ) (xs : List A) (left stop : ℕ)
      → stop < left + fuel
      → stop ≤ length xs
      → Sorts left stop xs (quick_sort le null fuel xs left stop)
  unfolding quick_sort
  quick_sort-Sorts zero xs left stop h k = record {
    sorted = λ i j a b c. absurd (omega arith);
    moved = Rearranged-refl null left stop xs;
  }
  quick_sort-Sorts (suc fuel) xs left stop h k = elim (Bool-cases (leb stop (left + 1))) [
    | inl short ↦
        rw (short, quick_sort)
          (record {
            sorted = λ i j a b c. absurd (ground arith);
            moved = Rearranged-refl null left stop xs;
          })
    | inr long ↦
        let wide : left + 1 < stop = ground arith in
        let m = (left + (stop - 1)) / 2 in
        let part =
          partition_lem le null xs left (stop - 1) m (omega arith) (omega arith) (omega arith) in
        let (p, ys) = partition le null xs left (stop - 1) m in
        let f =
          quick_sort-Sorts fuel ys left p (omega (arith, part.upper))
            (omega (arith, part.upper, part.moved.size)) in
        let zs = quick_sort le null fuel ys left p in
        let g =
          quick_sort-Sorts fuel zs (p + 1) stop (omega (arith, part.lower))
            (omega (arith, part.moved.size, f.moved.size)) in
        rw (long, quick_sort)
          (Sorts-of_partition left stop p (at null xs m) xs ys zs _ part (omega arith) f g)
  ]
