-- ===== src/Vector/Access.antt =====
-- A vector's construction, deletion, queries, moves of neighbours and search, against its list.
use htop.Prelude.{
  ℕ, zero, suc, ◌+◌, ◌-◌, ◌≤◌, ◌<◌, ◌≡◌, refl, sym, ap, ◌∙◌, inl, inr, Bool, true, false, Option,
  none, some, List, [], ◌∷◌, map, arith, ltb, ◌==◌, if◌then◌else◌, Bool-cases, length, get_elem?,
  get_elem?-lt, get_elem?-eq-none, get_or, set, length-set, length-replicate, take-set,
}
use htop.Vector.{
  Vector, all_set, new, delete, is_consistent, count_set, count, get, prune, exchange, move_up,
  move_down, index_from, index_of,
}
use htop.Vector.Contents.{slots, Holds, non_null-map, map-all_set, set-map}
use htop.Vector.Refine.{length-Holds, slot-Holds}

module _ {ℓ} {A : Type ℓ} where
  -- A new vector of a positive size is well formed and empty, and keeps its size and owner.
  pub new-Holds :
      (size : ℕ) (owner : Bool)
      → 0 < size
      → let v = new {A = A} (some size) owner in
        Holds [] v × (v.array_size ≡ size) × (v.owner ≡ owner)
  unfolding new
  new-Holds size owner h = (
    record { sized = length-replicate size none; fits = omega arith; grows = h; held = refl },
    refl,
    refl,
  )

  count_set-map : (xs : List A) → count_set (map some xs) ≡ length xs
  unfolding count_set
  count_set-map [] = refl
  count_set-map (x ∷ xs) = omega (arith, count_set-map xs)

  -- The debug build's checks hold of every well-formed vector: it is consistent, and the counted
  -- pointers are as many as its items.
  pub is_consistent-Holds :
      {xs : List A} {v : Vector A} → Holds xs v → (is_consistent v ≡ true) × (count v ≡ v.items)
  unfolding is_consistent count
  is_consistent-Holds {xs} {v} h =
      let full : all_set (slots v) ≡ true = ap all_set h.held ∙ map-all_set xs in
      (ground (arith, full, h.fits), ap count_set h.held ∙ count_set-map xs ∙ length-Holds h)

  -- `Vector_get` returns the object at an index in use, and nothing at any other.
  pub get-Holds : {xs : List A} {v : Vector A} (i : ℕ) → Holds xs v → get v i ≡ get_elem? xs i
  unfolding get
  get-Holds {xs} {v} i h = elim (Bool-cases (ltb i v.items)) [
    | inl in_use ↦ rw in_use (slot-Holds i h (ground arith))
    | inr past ↦ rw past (sym (get_elem?-eq-none xs i (ground (arith, length-Holds h))))
  ]

  -- An owner's deletion, and its pruning, delete every object once and in order; any other vector
  -- deletes nothing. The pruned vector is empty.
  pub prune-Holds :
      {xs : List A} {v : Vector A}
      → Holds xs v
      → Holds [] (prune v).0
        × ((prune v).1 ≡ (if v.owner then xs else []))
        × (delete v ≡ (prune v).1)
  unfolding prune delete
  prune-Holds {xs} {v} h = (
    record { sized = h.sized; fits = omega arith; grows = h.grows; held = refl },
    rw (h.held, non_null-map) refl,
    refl,
  )

  exchange-Holds :
      {xs : List A} {v : Vector A} (i j : ℕ) (x y : A)
      → Holds xs v
      → get_elem? xs i ≡ some x
      → get_elem? xs j ≡ some y
      → Holds (set (set xs i y) j x) (record v { array = exchange v.array i j })
  unfolding exchange
  exchange-Holds {xs} {v} i j x y h ei ej =
      let fi : get_or v.array i none ≡ some x =
        slot-Holds i h (omega (arith, get_elem?-lt xs i ei, length-Holds h)) ∙ ei in
      let fj : get_or v.array j none ≡ some y =
        slot-Holds j h (omega (arith, get_elem?-lt xs j ej, length-Holds h)) ∙ ej in
      rw (fi, fj)
        (record {
          sized = length-set _ j _ ∙ length-set v.array i _ ∙ h.sized;
          fits = h.fits;
          grows = h.grows;
          held =
              take-set _ v.items j _
              ∙ rw take-set (rw h.held (rw set-map (set-map (set xs i y) j x)));
        })

  -- `Vector_moveUp` exchanges the object with the one above it; at the top it changes nothing.
  pub move_up-Holds :
      {xs : List A} {v : Vector A} (i : ℕ) (x y : A)
      → Holds xs v
      → get_elem? xs i ≡ some x
      → get_elem? xs (i - 1) ≡ some y
      → Holds (if i == 0 then xs else set (set xs i y) (i - 1) x) (move_up v i)
  unfolding move_up
  move_up-Holds {xs} {v} i x y h ei ej = elim (Bool-cases (i == 0)) [
    | inl top ↦ rw (top) h
    | inr other ↦ rw (other) (exchange-Holds i (i - 1) x y h ei ej)
  ]

  -- `Vector_moveDown` exchanges the object with the one below it.
  pub move_down-Holds :
      {xs : List A} {v : Vector A} (i : ℕ) (x y : A)
      → Holds xs v
      → get_elem? xs i ≡ some x
      → get_elem? xs (i + 1) ≡ some y
      → Holds (set (set xs i y) (i + 1) x) (move_down v i)
  unfolding move_down
  move_down-Holds {xs} {v} i x y h ei ej =
      let more : i + 1 == v.items ≡ false =
        ground (arith, get_elem?-lt xs (i + 1) ej, length-Holds h) in
      rw more (exchange-Holds i (i + 1) x y h ei ej)

  -- At the bottom `Vector_moveDown` changes nothing.
  pub move_down-last : (v : Vector A) (i : ℕ) → i + 1 ≡ v.items → move_down v i ≡ v
  unfolding move_down
  move_down-last v i h = ground arith

  -- The least index, counted from `i`, at which an object of the list passes the test.
  abbrev pub find_index : (A → Bool) → List A → ℕ → Option ℕ
  find_index p [] i = none
  find_index p (x ∷ xs) i = if p x then some i else find_index p xs (i + 1)

  index_from-map :
      (p : A → Bool) (xs : List A) (i : ℕ) → index_from p (map some xs) i ≡ find_index p xs i
  unfolding index_from
  index_from-map p [] i = refl
  index_from-map p (x ∷ xs) i = rw (index_from-map p xs (i + 1))

  pub find_index-some :
      (p : A → Bool) (xs : List A) (i k : ℕ)
      → find_index p xs i ≡ some k
      → (x : A) × (i ≤ k)
        × (get_elem? xs (k - i) ≡ some x)
        × (p x ≡ true)
        × ((j : ℕ) (y : A) → i + j < k → get_elem? xs j ≡ some y → p y ≡ false)
  find_index-some p [] i k h = cc
  find_index-some p (x ∷ xs) i k h = elim (Bool-cases (p x)) [
    | inl hit ↦
        let here : i ≡ k = ground arith in
        let zero_off : k - i ≡ 0 = omega arith in
        (x, omega arith, rw zero_off, hit, λ j y lt e. absurd (omega arith))
    | inr no_hit ↦
        let (y, le, at, hit, before) = find_index-some p xs (i + 1) k (rw no_hit at h) in
        let off : k - i ≡ suc (k - (i + 1)) = omega arith in
        (y, omega arith, rw off at, hit, earlier x no_hit before)
  ]
    where
      earlier :
          (x : A)
          → p x ≡ false
          → ((j : ℕ) (y : A) → i + 1 + j < k → get_elem? xs j ≡ some y → p y ≡ false)
          → (j : ℕ) (y : A) → i + j < k
          → get_elem? (x ∷ xs) j ≡ some y
          → p y ≡ false
      earlier x no_hit before zero y lt e = cc
      earlier x no_hit before (suc j) y lt e = before j y (omega arith) e

  pub find_index-none :
      (p : A → Bool) (xs : List A) (i j : ℕ) (y : A)
      → find_index p xs i ≡ none
      → get_elem? xs j ≡ some y
      → p y ≡ false
  find_index-none p [] i j y h e = cc
  find_index-none p (x ∷ xs) i zero y h e = ground arith
  find_index-none p (x ∷ xs) i (suc j) y h e = ground (arith, find_index-none p xs (i + 1) j y)

  -- The index that `Vector_indexOf` returns is that of an object of the vector which compares
  -- equal, and no object before it does.
  pub index_of-some :
      {xs : List A} {v : Vector A} (p : A → Bool) (k : ℕ)
      → Holds xs v
      → index_of p v ≡ some k
      → (x : A) × (get_elem? xs k ≡ some x)
        × (p x ≡ true)
        × ((j : ℕ) (y : A) → j < k → get_elem? xs j ≡ some y → p y ≡ false)
  unfolding index_of
  index_of-some {xs} p k h e =
      let (x, _, at, hit, before) =
        find_index-some p xs 0 k (sym (rw h.held (index_from-map p xs 0)) ∙ e) in
      let off : k - 0 ≡ k = omega arith in
      (x, rw off at at, hit, λ j y lt. before j y (omega arith))

  -- It returns -1 only where no object of the vector compares equal.
  pub index_of-none :
      {xs : List A} {v : Vector A} (p : A → Bool) (j : ℕ) (y : A)
      → Holds xs v
      → index_of p v ≡ none
      → get_elem? xs j ≡ some y
      → p y ≡ false
  unfolding index_of
  index_of-none {xs} p j y h e =
      find_index-none p xs 0 j y (sym (rw h.held (index_from-map p xs 0)) ∙ e)
