-- ===== src/Vector/Sort/Insertion.antt =====
-- `insertionSort` sorts its range, and stably moves nothing out of it.
use htop.Prelude.{
  ℕ, zero, suc, ◌+◌, ◌-◌, ◌≤◌, ◌<◌, ◌≡◌, refl, sym, ap, ◌∙◌, subst, ◌⊎◌, inl, inr, Bool, true,
  false, List, arith, ltb, leb, ◌==◌, if◌then◌else◌, Bool-cases, ==_refl, length, set, length-set,
  get_or-set, get_or-set_self, get_or-set_ne,
}
use htop.Prelude.Count.{count, count-set, to_nat}
use htop.Vector.Sort.{shift_loop, insert_step, insertion_loop, insertion_sort}
use htop.Vector.Sort.Swap.{at, Rearranged, Rearranged-refl, Rearranged-trans, Rearranged-widen}
use htop.Vector.Sort.Quick.{IsPreorder, IsSorted, Sorts}

module _ {ℓ} {A : Type ℓ} (le : A → A → Bool) (null : A) where
  -- The end of the inner loop, started at `j` with the array `xs`: the elements from `r.0` to
  -- below `j` have moved up by one, all are greater than `t`, and the one before is not.
  pub record Shifted (left : ℕ) (t : A) (j : ℕ) (xs : List A) (r : ℕ × List A) : Type ℓ where
    pub lower : left ≤ r.0
    pub upper : r.0 ≤ j
    pub size : length r.1 ≡ length xs
    pub stays : (k : ℕ) → (k ≤ r.0) ⊎ (j < k) → at null r.1 k ≡ at null xs k
    pub shifts : (k : ℕ) → r.0 ≤ k → k < j → at null r.1 (suc k) ≡ at null xs k
    pub above : (k : ℕ) → r.0 ≤ k → k < j → le (at null xs k) t ≡ false
    pub below : (k : ℕ) → left ≤ k → suc k ≡ r.0 → le (at null xs k) t ≡ true
    pub counts :
        (p : A → Bool)
        → count p r.1 + to_nat (p (at null xs j)) ≡ count p xs + to_nat (p (at null r.1 r.0))

  stop-Shifted :
      (left : ℕ) (t : A) (j : ℕ) (xs : List A)
      → left ≤ j
      → ((k : ℕ) → left ≤ k → suc k ≡ j → le (at null xs k) t ≡ true)
      → Shifted left t j xs (j, xs)
  stop-Shifted left t j xs h below = record {
    lower = h;
    upper = omega arith;
    size = refl;
    stays = λ k _. refl;
    shifts = λ k a b. absurd (omega arith);
    above = λ k a b. absurd (omega arith);
    below = below;
    counts = λ p. refl;
  }

  -- One more round in front of a loop that ends in `r`.
  Shifted-step :
      (left : ℕ) (t : A) (j : ℕ) (xs : List A) (r : ℕ × List A)
      → suc j < length xs
      → le (at null xs j) t ≡ false
      → Shifted left t j (set xs (suc j) (at null xs j)) r
      → Shifted left t (suc j) xs r
  Shifted-step left t j xs r k greater s =
      let ys = set xs (suc j) (at null xs j) in
      let kept : (i : ℕ) → suc j == i ≡ false → at null ys i ≡ at null xs i =
        λ i ne. get_or-set xs (suc j) i (at null xs j) null k ∙ rw ne in
      let written : at null ys (suc j) ≡ at null xs j =
        get_or-set xs (suc j) (suc j) (at null xs j) null k ∙ rw (==_refl (suc j)) in
      let upper = s.upper in
      record {
        lower = s.lower;
        upper = omega arith;
        size = s.size ∙ length-set xs (suc j) _;
        stays = λ i h. s.stays i (grind arith) ∙ kept i (grind arith);
        shifts = λ i a b. elim (Bool-cases (i == j)) [
          | inl last ↦
              let e : i ≡ j = ground arith in rw e (s.stays (suc j) (inr (omega arith)) ∙ written)
          | inr earlier ↦ s.shifts i a (ground arith) ∙ kept i (ground arith)
        ];
        above = λ i a b. elim (Bool-cases (i == j)) [
          | inl last ↦ let e : i ≡ j = ground arith in rw (e, greater)
          | inr earlier ↦ rw (kept i (ground arith)) at (s.above i a (ground arith))
        ];
        below = λ i a b. rw (kept i (ground arith)) at (s.below i a b);
        counts = λ p. omega (
          arith,
          s.counts p,
          count-set p xs (suc j) (at null xs j) null k,
          ap (λ x. to_nat (p x)) (kept j (ground arith)),
        );
      }

  pub shift_loop-Shifted :
      (left : ℕ) (t : A) (j : ℕ) (xs : List A)
      → left ≤ j
      → j < length xs
      → Shifted left t j xs (shift_loop le null left t j xs)
  unfolding shift_loop
  shift_loop-Shifted left t zero xs h k =
      stop-Shifted left t zero xs h (λ k a b. absurd (omega arith))
  shift_loop-Shifted left t (suc j) xs h k = elim (Bool-cases (ltb j left)) [
    | inl out ↦
        rw (out, shift_loop) (stop-Shifted left t (suc j) xs h (λ k a b. absurd (ground arith)))
    | inr within ↦ elim (Bool-cases (le (at null xs j) t)) [
      | inl ok ↦
          rw (within, ok, shift_loop)
            (stop-Shifted left t (suc j) xs h (λ k a b. let e : k ≡ j = omega arith in rw (e, ok)))
      | inr greater ↦
          rw (within, greater, shift_loop)
            (Shifted-step left t j xs _ k greater (
              shift_loop-Shifted left t j (set xs (suc j) (at null xs j)) (ground arith)
                (rw length-set (omega arith))))
    ]
  ]

-- Where the element at index `j` comes from, when the one at `i` is inserted at `a`.
pub source : ℕ → ℕ → ℕ → ℕ
source a i j = if ltb j a then j else if j == a then i else if leb j i then j - 1 else j

-- The four kinds of indices, with that index.
data Place (a i : ℕ) : ℕ → ℕ → Type 0 where
  front : (j : ℕ) → j < a → Place a i j j
  here : Place a i a i
  moved : (m : ℕ) → a ≤ m → m < i → Place a i (suc m) m
  behind : (j : ℕ) → i < j → Place a i j j

source-Place : (a i j : ℕ) → a ≤ i → Place a i j (source a i j)
unfolding source
source-Place a i j h = elim (Bool-cases (ltb j a)) [
  | inl p ↦ rw p (front j (ground arith))
  | inr p ↦ elim (Bool-cases (j == a)) [
    | inl q ↦ let e : j ≡ a = ground arith in rw (p, q) (rw e here)
    | inr q ↦ elim (Bool-cases (leb j i)) [
      | inl r ↦
          let e : j ≡ suc (j - 1) = ground arith in
          rw (p, q, r)
            (subst (λ k. Place a i k (j - 1)) (sym e) (moved (j - 1) (ground arith) (ground arith)))
      | inr r ↦ rw (p, q, r) (behind j (ground arith))
    ]
  ]
]

module _ {ℓ} {A : Type ℓ} (le : A → A → Bool) (null : A) where
  read-Place :
      {a i j m : ℕ} (left : ℕ) (xs ys : List A)
      → i < length xs
      → Shifted le null left (at null xs i) i xs (a, ys)
      → Place a i j m
      → at null (set ys a (at null xs i)) j ≡ at null xs m
  read-Place {a} {i} left xs ys k s (front j h) =
      get_or-set_ne ys a j (at null xs i) null (omega arith) ∙ s.stays j (inl (omega arith))
  read-Place {a} {i} left xs ys k s here =
      get_or-set_self ys a (at null xs i) null (omega (arith, s.size, s.upper))
  read-Place {a} {i} left xs ys k s (moved m h1 h2) =
      get_or-set_ne ys a (suc m) (at null xs i) null (omega arith) ∙ s.shifts m h1 h2
  read-Place {a} {i} left xs ys k s (behind j h) =
      get_or-set_ne ys a j (at null xs i) null (omega (arith, s.upper)) ∙ s.stays j (inr h)

  -- A place inside of the range comes from inside of it, and one outside of it from itself.
  Place-inside :
      {a i j m : ℕ} (left : ℕ)
      → left ≤ a
      → a ≤ i
      → Place a i j m
      → left ≤ j
      → j < suc i
      → (left ≤ m) × (m < suc i)
  Place-inside left h1 h2 (front j h) h3 h4 = omega arith
  Place-inside left h1 h2 here h3 h4 = omega arith
  Place-inside left h1 h2 (moved m h h') h3 h4 = omega arith
  Place-inside left h1 h2 (behind j h) h3 h4 = omega arith

  Place-outside :
      {a i j m : ℕ} (left : ℕ) → left ≤ a → a ≤ i → Place a i j m → (j < left) ⊎ (suc i ≤ j) → m ≡ j
  Place-outside left h1 h2 (front j h) c = refl
  Place-outside left h1 h2 here c = omega arith
  Place-outside left h1 h2 (moved m h h') c = omega arith
  Place-outside left h1 h2 (behind j h) c = refl

  insert-Rearranged :
      (left i a : ℕ) (xs ys : List A)
      → i < length xs
      → Shifted le null left (at null xs i) i xs (a, ys)
      → Rearranged null left (suc i) xs (set ys a (at null xs i))
  insert-Rearranged left i a xs ys k s =
      let read = λ (j : ℕ). read-Place left xs ys k s (source-Place a i j s.upper) in
      record {
        size = length-set ys a _ ∙ s.size;
        same = λ p. omega (
          arith,
          count-set p ys a (at null xs i) null (omega (arith, s.size, s.upper)),
          s.counts p,
        );
        outside = λ j c.
            read j
            ∙ ap (at null xs) (Place-outside left s.lower s.upper (source-Place a i j s.upper) c);
        inside = λ j c d.
            let (m1, m2) = Place-inside left s.lower s.upper (source-Place a i j s.upper) c d in
            (source a i j, m1, m2, read j);
      }

module _ {ℓ} {A : Type ℓ} {le : A → A → Bool} (order : IsPreorder le) (null : A) where
  -- Everything in the run before the place of insertion is at most the inserted element.
  below_front :
      (left i a m : ℕ) (xs ys : List A)
      → Shifted le null left (at null xs i) i xs (a, ys)
      → IsSorted le null left i xs
      → left ≤ m
      → m < a
      → le (at null xs m) (at null xs i) ≡ true
  below_front left i a m xs ys s sorted h1 h2 =
      let last : le (at null xs (a - 1)) (at null xs i) ≡ true =
        s.below (a - 1) (omega arith) (omega arith) in
      elim (Bool-cases (m == a - 1)) [
        | inl e ↦ let e' : m ≡ a - 1 = ground arith in rw (e', last)
        | inr ne ↦
            order.trans _ (at null xs (a - 1)) _
              (sorted m (a - 1) h1 (ground arith) (omega (arith, s.upper))) last
      ]

  places_sorted :
      {a i j k m n : ℕ} (left : ℕ) (xs ys : List A)
      → Shifted le null left (at null xs i) i xs (a, ys)
      → IsSorted le null left i xs
      → Place a i j m
      → Place a i k n
      → left ≤ j
      → j < k
      → k < suc i
      → le (at null xs m) (at null xs n) ≡ true
  places_sorted {a} {i} left xs ys s sorted (front j h) (front k h') h1 h2 h3 =
      sorted j k h1 h2 (omega (arith, s.upper))
  places_sorted {a} {i} left xs ys s sorted (front j h) here h1 h2 h3 =
      below_front left i a j xs ys s sorted h1 h
  places_sorted {a} {i} left xs ys s sorted (front j h) (moved n g g') h1 h2 h3 =
      sorted j n h1 (omega arith) g'
  places_sorted {a} {i} left xs ys s sorted here (moved n g g') h1 h2 h3 =
      order.total _ _ (s.above n g g')
  places_sorted {a} {i} left xs ys s sorted (moved m h h') (moved n g g') h1 h2 h3 =
      sorted m n (omega (arith, s.lower)) (omega arith) g'
  places_sorted left xs ys s sorted here here h1 h2 h3 = absurd (omega arith)
  places_sorted left xs ys s sorted here (front k g) h1 h2 h3 = absurd (omega arith)
  places_sorted left xs ys s sorted (moved m h h') here h1 h2 h3 = absurd (omega arith)
  places_sorted left xs ys s sorted (moved m h h') (front k g) h1 h2 h3 = absurd (omega arith)
  places_sorted left xs ys s sorted p (behind k g) h1 h2 h3 = absurd (omega arith)
  places_sorted left xs ys s sorted (behind j g) q h1 h2 h3 = absurd (omega arith)

  -- One round of the outer loop extends the sorted run by one element.
  insert_step-Sorts :
      (left i : ℕ) (xs : List A)
      → left ≤ i
      → i < length xs
      → IsSorted le null left i xs
      → Sorts order null left (suc i) xs (insert_step le null left i xs)
  unfolding insert_step
  insert_step-Sorts left i xs h k sorted =
      let s = shift_loop-Shifted le null left (at null xs i) i xs h k in
      let (a, ys) = shift_loop le null left (at null xs i) i xs in
      let upper : a ≤ i = s.upper in
      record {
        sorted = λ j m c d e.
            rw
              (
                read-Place le null left xs ys k s (source-Place a i j upper),
                read-Place le null left xs ys k s (source-Place a i m upper),
              )
              (places_sorted left xs ys s sorted (source-Place a i j upper)
                (source-Place a i m upper) c d e);
        moved = insert-Rearranged le null left i a xs ys k s;
      }

  insertion_loop-Sorts :
      (n i left stop : ℕ) (xs : List A)
      → left ≤ i
      → i + n ≡ stop
      → stop ≤ length xs
      → IsSorted le null left i xs
      → Sorts order null left stop xs (insertion_loop le null left n i xs)
  unfolding insertion_loop
  insertion_loop-Sorts zero i left stop xs h e k sorted =
      let same : i ≡ stop = omega arith in
      record { sorted = rw same at sorted; moved = Rearranged-refl null left stop xs }
  insertion_loop-Sorts (suc n) i left stop xs h e k sorted =
      let f = insert_step-Sorts left i xs h (omega arith) sorted in
      let next : suc i ≡ i + 1 = omega arith in
      let g =
        insertion_loop-Sorts n (i + 1) left stop (insert_step le null left i xs) (omega arith)
          (omega arith) (omega (arith, f.moved.size)) (rw next at f.sorted) in
      record {
        sorted = g.sorted;
        moved =
            Rearranged-trans null (Rearranged-widen null (omega arith) (omega arith) f.moved)
              g.moved;
      }

  -- For a total and transitive comparison `insertionSort` puts its range in order: the array has
  -- the same items, the elements outside of the range are where they were, and those inside come
  -- from inside.
  pub insertion_sort-Sorts :
      (xs : List A) (left stop : ℕ)
      → stop ≤ length xs
      → Sorts order null left stop xs (insertion_sort le null xs left stop)
  unfolding insertion_sort
  insertion_sort-Sorts xs left stop k = elim (Bool-cases (leb stop left)) [
    | inl empty ↦
        let none_left : stop - (left + 1) ≡ 0 = ground arith in
        rw (none_left, insertion_loop)
          (record {
            sorted = λ i j a b c. absurd (ground arith);
            moved = Rearranged-refl null left stop xs;
          })
    | inr more ↦
        insertion_loop-Sorts (stop - (left + 1)) (left + 1) left stop xs (omega arith)
          (ground arith) k (λ i j a b c. absurd (omega arith))
  ]
