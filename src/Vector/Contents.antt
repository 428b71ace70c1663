-- ===== src/Vector/Contents.antt =====
-- The invariant of a vector and the list of objects that it stands for; laws of runs of slots.
use htop.Prelude.{
  ℕ, zero, suc, ◌+◌, ◌≤◌, ◌<◌, ◌≡◌, refl, ap, true, Option, none, some, List, [], ◌∷◌, ◌++◌, arith,
  length, get_or, set, take, drop, insert_at, remove_at, map,
}
use htop.Vector.{Vector, non_null, all_set}

module _ {ℓ} {A : Type ℓ} where
  -- The slots in use.
  abbrev pub slots : Vector A → List (Option A)
  slots v = take v.items v.array

  -- The vector is well formed, and its slots in use hold exactly the objects of `xs`, in order.
  pub record Holds (xs : List A) (v : Vector A) : Type ℓ where
    pub sized : length v.array ≡ v.array_size
    pub fits : v.items ≤ v.array_size
    pub grows : 0 < v.growth_rate
    pub held : slots v ≡ map some xs

  -- Runs of slots with no NULL pointer are the images of lists of objects.
  pub all_set-map : (xs : List (Option A)) → all_set xs ≡ true → map some (non_null xs) ≡ xs
  unfolding all_set non_null
  all_set-map [] h = refl
  all_set-map (none ∷ xs) h = cc
  all_set-map (some x ∷ xs) h = ap (λ l. some x ∷ l) (all_set-map xs h)

  pub non_null-map : (xs : List A) → non_null (map some xs) ≡ xs
  unfolding non_null
  non_null-map [] = refl
  non_null-map (x ∷ xs) = ap (λ l. x ∷ l) (non_null-map xs)

  pub map-all_set : (xs : List A) → all_set (map some xs) ≡ true
  unfolding all_set
  map-all_set [] = refl
  map-all_set (x ∷ xs) = map-all_set xs

-- A slot list that is the image of `xs` holds exactly `xs`.
module _ {ℓ} {A : Type ℓ} where
  pub insert_at-map :
      (i : ℕ) (a : A) (xs : List A)
      → insert_at i (some a) (map some xs) ≡ map some (insert_at i a xs)
  insert_at-map zero a xs = refl
  insert_at-map (suc i) a [] = refl
  insert_at-map (suc i) a (x ∷ xs) = ap (λ l. some x ∷ l) (insert_at-map i a xs)

  pub remove_at-map : (i : ℕ) (xs : List A) → remove_at i (map some xs) ≡ map some (remove_at i xs)
  remove_at-map i [] = refl
  remove_at-map zero (x ∷ xs) = refl
  remove_at-map (suc i) (x ∷ xs) = ap (λ l. some x ∷ l) (remove_at-map i xs)

  pub set-map : (xs : List A) (i : ℕ) (a : A) → set (map some xs) i (some a) ≡ map some (set xs i a)
  set-map [] i a = refl
  set-map (x ∷ xs) zero a = refl
  set-map (x ∷ xs) (suc i) a = ap (λ l. some x ∷ l) (set-map xs i a)

  pub append-map : (xs ys : List A) → map some xs ++ map some ys ≡ map some (xs ++ ys)
  append-map [] ys = refl
  append-map (x ∷ xs) ys = ap (λ l. some x ∷ l) (append-map xs ys)

module _ {ℓ} {A : Type ℓ} where
  pub take-take-append :
      (d : ℕ) (xs r : List A) → d ≤ length xs → take d (take d xs ++ r) ≡ take d xs
  take-take-append zero xs r h = refl
  take-take-append (suc d) [] r h = absurd (omega arith)
  take-take-append (suc d) (x ∷ xs) r h = ap (λ l. x ∷ l) (take-take-append d xs r (omega arith))

  -- Shifting `d` elements up from index `i` and writing there is an insertion.
  pub open_gap :
      (i d n : ℕ) (v : A) (xs r : List A)
      → n ≡ i + d
      → n < length xs
      → take (suc n) (set (take (suc i) xs ++ (take d (drop i xs) ++ r)) i v)
        ≡ insert_at i v (take n xs)
  open_gap i d n v [] r e h = absurd (omega arith)
  open_gap zero d n v (x ∷ xs) r e h =
      let e' : n ≡ d = omega arith in
      rw e' (ap (λ l. v ∷ l) (take-take-append d (x ∷ xs) r (omega arith)))
  open_gap (suc i) d zero v (x ∷ xs) r e h = absurd (omega arith)
  open_gap (suc i) d (suc n) v (x ∷ xs) r e h =
      ap (λ l. x ∷ l) (open_gap i d n v xs r (omega arith) (omega arith))

  -- Shifting `d` elements down to index `i` is a removal.
  pub close_gap :
      (i d n : ℕ) (xs r : List A)
      → n ≡ i + d
      → n < length xs
      → take n (take i xs ++ (take d (drop (suc i) xs) ++ r)) ≡ remove_at i (take (suc n) xs)
  close_gap i d n [] r e h = absurd (omega arith)
  close_gap zero d n (x ∷ xs) r e h =
      let e' : n ≡ d = omega arith in rw e' (take-take-append d xs r (omega arith))
  close_gap (suc i) d zero (x ∷ xs) r e h = absurd (omega arith)
  close_gap (suc i) d (suc n) (x ∷ xs) r e h =
      ap (λ l. x ∷ l) (close_gap i d n xs r (omega arith) (omega arith))

  pub remove_at-last :
      (n : ℕ) (xs : List A) → n < length xs → remove_at n (take (suc n) xs) ≡ take n xs
  remove_at-last n [] h = absurd (omega arith)
  remove_at-last zero (x ∷ xs) h = refl
  remove_at-last (suc n) (x ∷ xs) h = ap (λ l. x ∷ l) (remove_at-last n xs (omega arith))

  -- Writing one past a prefix extends it.
  pub set-end :
      (n : ℕ) (v : A) (xs : List A)
      → n < length xs
      → take (suc n) (set xs n v) ≡ take n xs ++ v ∷ []
  set-end n v [] h = absurd (omega arith)
  set-end zero v (x ∷ xs) h = refl
  set-end (suc n) v (x ∷ xs) h = ap (λ l. x ∷ l) (set-end n v xs (omega arith))

  pub insert_at-end :
      (i : ℕ) (v : A) (xs : List A) → length xs ≤ i → insert_at i v xs ≡ xs ++ v ∷ []
  insert_at-end zero v [] h = refl
  insert_at-end zero v (x ∷ xs) h = absurd (omega arith)
  insert_at-end (suc i) v [] h = refl
  insert_at-end (suc i) v (x ∷ xs) h = ap (λ l. x ∷ l) (insert_at-end i v xs (omega arith))

  pub get_or-take : (n i : ℕ) (xs : List A) (d : A) → i < n → get_or (take n xs) i d ≡ get_or xs i d
  get_or-take zero i xs d h = absurd (omega arith)
  get_or-take (suc n) i [] d h = refl
  get_or-take (suc n) zero (x ∷ xs) d h = refl
  get_or-take (suc n) (suc i) (x ∷ xs) d h = get_or-take n i xs d (omega arith)
