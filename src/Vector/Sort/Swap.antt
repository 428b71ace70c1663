-- ===== src/Vector/Sort/Swap.antt =====
-- What `swap` does to an array, and the relation of arrays that differ by a rearrangement of the
-- elements of one range.
use htop.Prelude.{
  ℕ, ◌≤◌, ◌<◌, ◌≡◌, refl, ap, ◌∙◌, ◌⊎◌, inl, inr, Bool, List, arith, ◌==◌, ltb, leb, ◌&&◌,
  if◌then◌else◌, Bool-cases, ==_refl, length, get_or, set, length-set, get_or-set,
}
use htop.Prelude.Count.{SameItems, count-set}
use htop.Vector.Sort.{swap}

module _ {ℓ} {A : Type ℓ} (null : A) where
  abbrev pub at : List A → ℕ → A
  at xs i = get_or xs i null

  pub length-swap :
      (le : A → A → Bool) (xs : List A) (i j : ℕ) → length (swap le null xs i j) ≡ length xs
  unfolding swap
  length-swap le xs i j = length-set _ j _ ∙ length-set xs i _

  pub get_or-swap :
      (le : A → A → Bool) (xs : List A) (i j k : ℕ)
      → i < length xs
      → j < length xs
      → at (swap le null xs i j) k
        ≡ (if j == k then at xs i else if i == k then at xs j else at xs k)
  unfolding swap
  get_or-swap le xs i j k hi hj =
      get_or-set (set xs i (at xs j)) j k (at xs i) null (rw length-set hj)
      ∙ rw (get_or-set xs i k (at xs j) null hi) refl

  -- After a swap each of the two indices has the element of the other.
  pub swap_right :
      (le : A → A → Bool) (xs : List A) (i j : ℕ)
      → i < length xs
      → j < length xs
      → at (swap le null xs i j) j ≡ at xs i
  swap_right le xs i j hi hj = get_or-swap le xs i j j hi hj ∙ rw (==_refl j)

  pub swap_left :
      (le : A → A → Bool) (xs : List A) (i j : ℕ)
      → i < length xs
      → j < length xs
      → at (swap le null xs i j) i ≡ at xs j
  swap_left le xs i j hi hj = get_or-swap le xs i j i hi hj ∙ elim (Bool-cases (j == i)) [
    | inl same ↦ let e : i ≡ j = ground arith in rw same (ap (at xs) e)
    | inr other ↦ rw (other, ==_refl i)
  ]

  pub count-swap :
      (le : A → A → Bool) (xs : List A) (i j : ℕ)
      → i < length xs
      → j < length xs
      → SameItems (swap le null xs i j) xs
  unfolding swap
  count-swap le xs i j hi hj p =
      let ys = set xs i (at xs j) in
      ground (
        arith,
        count-set p xs i (at xs j) null hi,
        count-set p ys j (at xs i) null (rw length-set hj),
        get_or-set xs i j (at xs j) null hi,
      )

  -- `ys` is `xs` with the elements at the indices from `lo` to below `hi` rearranged: the items
  -- are the same, those outside of the range stay, and those inside come from inside.
  pub record Rearranged (lo hi : ℕ) (xs ys : List A) : Type ℓ where
    pub size : length ys ≡ length xs
    pub same : SameItems ys xs
    pub outside : (k : ℕ) → (k < lo) ⊎ (hi ≤ k) → at ys k ≡ at xs k
    pub inside : (k : ℕ) → lo ≤ k → k < hi → (j : ℕ) × (lo ≤ j) × (j < hi) × (at ys k ≡ at xs j)

  pub Rearranged-refl : (lo hi : ℕ) (xs : List A) → Rearranged lo hi xs xs
  Rearranged-refl lo hi xs = record {
    size = refl;
    same = λ p. refl;
    outside = λ k _. refl;
    inside = λ k h1 h2. (k, h1, h2, refl);
  }

  pub Rearranged-trans :
      {lo hi : ℕ} {xs ys zs : List A}
      → Rearranged lo hi xs ys
      → Rearranged lo hi ys zs
      → Rearranged lo hi xs zs
  Rearranged-trans f g = record {
    size = g.size ∙ f.size;
    same = λ p. g.same p ∙ f.same p;
    outside = λ k h. g.outside k h ∙ f.outside k h;
    inside = λ k h1 h2.
        let (j, j1, j2, ej) = g.inside k h1 h2 in
        let (i, i1, i2, ei) = f.inside j j1 j2 in (i, i1, i2, ej ∙ ei);
  }

  -- A rearrangement of a part of a range is one of the range.
  pub Rearranged-widen :
      {lo hi lo' hi' : ℕ} {xs ys : List A}
      → lo' ≤ lo
      → hi ≤ hi'
      → Rearranged lo hi xs ys
      → Rearranged lo' hi' xs ys
  Rearranged-widen {lo} {hi} {lo'} {hi'} {xs} {ys} hl hh f = record {
    size = f.size;
    same = f.same;
    outside = λ k h. f.outside k (grind arith);
    inside = λ k h1 h2. elim (Bool-cases (leb lo k && ltb k hi)) [
      | inl within ↦
          let (j, j1, j2, e) = f.inside k (ground arith) (ground arith) in
          (j, omega arith, omega arith, e)
      | inr beyond ↦ (k, h1, h2, f.outside k (ground arith))
    ];
  }

  pub swap-Rearranged :
      (le : A → A → Bool) (xs : List A) (lo hi i j : ℕ)
      → lo ≤ i
      → i < hi
      → lo ≤ j
      → j < hi
      → hi ≤ length xs
      → Rearranged lo hi xs (swap le null xs i j)
  swap-Rearranged le xs lo hi i j li ih lj jh hn = record {
    size = length-swap le xs i j;
    same = count-swap le xs i j (omega arith) (omega arith);
    outside = λ k h. get_or-swap le xs i j k (omega arith) (omega arith) ∙ ground arith;
    inside = λ k h1 h2. (
      if j == k then i else if i == k then j else k,
      ground arith,
      ground arith,
      get_or-swap le xs i j k (omega arith) (omega arith) ∙ ground arith,
    );
  }
