-- ===== src/Vector/Sort/Partition.antt =====
-- `partition`: what its loop keeps, and what it returns.
use htop.Prelude.{
  ℕ, zero, suc, ◌+◌, ◌-◌, ◌≤◌, ◌<◌, ◌≡◌, ◌∙◌, inl, inr, Bool, true, false, List, arith, ◌==◌,
  Bool-cases, length,
}
use htop.Vector.Sort.{swap, partition_loop, partition}
use htop.Vector.Sort.Swap.{
  at, length-swap, get_or-swap, swap_left, swap_right, Rearranged, Rearranged-refl,
  Rearranged-trans, Rearranged-widen, swap-Rearranged,
}

module _ {ℓ} {A : Type ℓ} (le : A → A → Bool) (null : A) where
  -- From `left` on the elements are at most the pivot up to `store`, and above it up to `stop`.
  pub record Split (pivot : A) (left stop store : ℕ) (xs : List A) : Type ℓ where
    pub low : (k : ℕ) → left ≤ k → k < store → le (at null xs k) pivot ≡ true
    pub high : (k : ℕ) → store ≤ k → k < stop → le (at null xs k) pivot ≡ false

  Split-swap :
      (pivot : A) (left i store : ℕ) (xs : List A)
      → left ≤ store
      → store ≤ i
      → i < length xs
      → le (at null xs i) pivot ≡ true
      → Split pivot left i store xs
      → Split pivot left (i + 1) (store + 1) (swap le null xs i store)
  Split-swap pivot left i store xs h1 h2 h3 e s = record {
    low = λ k a b. rw (get_or-swap null le xs i store k h3 (omega arith)) (ground (arith, s.low k));
    high = λ k a b.
        rw (get_or-swap null le xs i store k h3 (omega arith))
          (ground (arith, s.high k, s.high store));
  }

  Split-skip :
      (pivot : A) (left i store : ℕ) (xs : List A)
      → le (at null xs i) pivot ≡ false
      → Split pivot left i store xs
      → Split pivot left (i + 1) store xs
  Split-skip pivot left i store xs e s = record {
    low = s.low;
    high = λ k a b. elim (Bool-cases (k == i)) [
      | inl last ↦ let same : k ≡ i = ground arith in rw same e
      | inr before ↦ s.high k a (ground arith)
    ];
  }

  pub record Partitioned (pivot : A) (left right : ℕ) (xs : List A) (r : ℕ × List A) : Type ℓ where
    pub lower : left ≤ r.0
    pub upper : r.0 ≤ right
    pub split : Split pivot left right r.0 r.1
    pub moved : Rearranged null left right xs r.1

  pub partition_loop-Partitioned :
      (n i store : ℕ) (pivot : A) (left right : ℕ) (xs : List A)
      → left ≤ store
      → store ≤ i
      → i + n ≡ right
      → right ≤ length xs
      → Split pivot left i store xs
      → Partitioned pivot left right xs (partition_loop le null n pivot i store xs)
  unfolding partition_loop
  partition_loop-Partitioned zero i store pivot left right xs h1 h2 e h3 s =
      let same : i ≡ right = omega arith in
      record {
        lower = h1;
        upper = omega arith;
        split = rw same at s;
        moved = Rearranged-refl null left right xs;
      }
  partition_loop-Partitioned (suc n) i store pivot left right xs h1 h2 e h3 s =
      elim (Bool-cases (le (at null xs i) pivot)) [
        | inl below ↦
            let f =
              swap-Rearranged null le xs left right i store (omega arith) (omega arith) h1
                (omega arith) h3 in
            let p =
              partition_loop-Partitioned n (i + 1) (store + 1) pivot left right
                (swap le null xs i store) (omega arith) (omega arith) (omega arith)
                (rw length-swap h3)
                (Split-swap pivot left i store xs h1 h2 (omega arith) below s) in
            rw (below, partition_loop)
              (record {
                lower = p.lower;
                upper = p.upper;
                split = p.split;
                moved = Rearranged-trans null f p.moved;
              })
        | inr above ↦
            rw (above, partition_loop)
              (partition_loop-Partitioned n (i + 1) store pivot left right xs h1 (omega arith)
                (omega arith) h3 (Split-skip pivot left i store xs above s))
      ]

  -- What `partition` returns for the range from `left` to `right`, both inclusive: the array with
  -- that range rearranged, and an index in the range at which the pivot stands, with no greater
  -- element before it and only greater ones behind it.
  pub record IsPartition (pivot : A) (left right : ℕ) (xs : List A) (r : ℕ × List A) : Type ℓ where
    pub lower : left ≤ r.0
    pub upper : r.0 ≤ right
    pub middle : at null r.1 r.0 ≡ pivot
    pub low : (k : ℕ) → left ≤ k → k < r.0 → le (at null r.1 k) pivot ≡ true
    pub high : (k : ℕ) → r.0 < k → k ≤ right → le (at null r.1 k) pivot ≡ false
    pub moved : Rearranged null left (suc right) xs r.1

  -- On a range within the array, with the pivot's index in the range, what `partition` returns is as
  -- described for `IsPartition`: the pivot stands between what is not greater and what is greater.
  pub partition_lem :
      (xs : List A) (left right m : ℕ)
      → left ≤ m
      → m ≤ right
      → right < length xs
      → IsPartition (at null xs m) left right xs (partition le null xs left right m)
  unfolding partition
  partition_lem xs left right m h1 h2 h3 =
      let pivot = at null xs m in
      let start = swap le null xs m right in
      let long : length start ≡ length xs = length-swap null le xs m right in
      let p =
        partition_loop-Partitioned (right - left) left left pivot left right start (omega arith)
          (omega arith) (omega arith) (omega arith)
          (record { low = λ k a b. absurd (omega arith); high = λ k a b. absurd (omega arith) }) in
      let (s, ys) = partition_loop le null (right - left) pivot left left start in
      let size : length ys ≡ length xs = p.moved.size ∙ long in
      let reads =
        λ (k : ℕ). get_or-swap null le ys s right k (omega (arith, p.upper)) (omega arith) in
      let last : at null ys right ≡ pivot =
        p.moved.outside right (inr (omega arith))
        ∙ swap_right null le xs m right (omega arith) h3 in
      record {
        lower = p.lower;
        upper = p.upper;
        middle = swap_left null le ys s right (omega (arith, p.upper)) (omega arith) ∙ last;
        low = λ k a b. rw (reads k) (ground (arith, p.split.low k, p.upper));
        high = λ k a b. rw (reads k) (ground (arith, p.split.high k, p.split.high s));
        moved =
            Rearranged-trans null
              (swap-Rearranged null le xs left (suc right) m right h1 (omega arith) (omega arith)
                (omega arith) h3)
              (Rearranged-trans null (Rearranged-widen null (omega arith) (omega arith) p.moved) (
                swap-Rearranged null le ys left (suc right) s right p.lower (omega (arith, p.upper))
                  (omega arith) (omega arith) (omega arith)));
      }
