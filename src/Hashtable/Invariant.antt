-- ===== src/Hashtable/Invariant.antt =====
-- The Robin Hood invariant of a table, and the entries that it holds.
use htop.Prelude.{
  ℕ, zero, suc, ◌%◌, ◌≤◌, ◌<◌, ◌≡◌, refl, sym, ap, ◌∙◌, inl, inr, Bool, false, none, some, List, [],
  ◌∷◌, arith, Bool-cases, length, replicate, length-replicate, get_or-replicate,
}
use htop.Prelude.Count.{count, to_nat}
use htop.Hashtable.{Item, Table, occupied, bucket, empty_item, make}
use htop.Hashtable.Walk.{walk}

count-replicate {ℓ} : (V : Type ℓ) (n : ℕ) → count occupied (replicate n (empty_item {V = V})) ≡ 0
unfolding occupied
count-replicate V zero = refl
count-replicate V (suc n) = omega (arith, count-replicate V n)

module _ {ℓ} {V : Type ℓ} where
  -- The bucket at `i` holds the value `v` under the key `k`.
  pub record At (bs : List (Item V)) (k : ℕ) (v : V) (i : ℕ) : Type ℓ where
    pub inside : i < length bs
    pub key : (bucket bs i).key ≡ k
    pub value : (bucket bs i).value ≡ some v

  -- The table maps the key `k` to the value `v`.
  abbrev pub Has : List (Item V) → ℕ → V → Type ℓ
  Has bs k v = (i : ℕ) × At bs k v i

  -- The bucket at `i` is in use, and is at least `q` steps from its home.
  pub record Full (bs : List (Item V)) (i q : ℕ) : Type ℓ where
    pub holds : V
    pub value : (bucket bs i).value ≡ some holds
    pub far : q ≤ (bucket bs i).probe

  -- The path of a key at home `h` up to `n` steps is full, of entries no nearer to their homes.
  abbrev pub PathFull : List (Item V) → ℕ → ℕ → ℕ → Type ℓ
  PathFull bs size h n = (q : ℕ) → q < n → Full bs (walk size h q) q

  pub record IsRobinHood (size : ℕ) (bs : List (Item V)) : Type ℓ where
    pub sized : length bs ≡ size
    pub pos : 0 < size
    pub home :
        (i : ℕ) (v : V)
        → i < size
        → (bucket bs i).value ≡ some v
        → walk size ((bucket bs i).key % size) (bucket bs i).probe ≡ i
    pub path :
        (i : ℕ) (v : V)
        → i < size
        → (bucket bs i).value ≡ some v
        → PathFull bs size ((bucket bs i).key % size) (bucket bs i).probe
    pub unique :
        (i j : ℕ) (v w : V)
        → i < size
        → j < size
        → (bucket bs i).value ≡ some v
        → (bucket bs j).value ≡ some w
        → (bucket bs i).key ≡ (bucket bs j).key
        → i ≡ j

  -- With that, the entries are counted and a bucket is free.
  pub record IsValid (t : Table V) : Type ℓ where
    pub layout : IsRobinHood t.size t.buckets
    pub counted : count occupied t.buckets ≡ t.items
    pub room : t.items < t.size

  -- A table maps a key to one value.
  pub Has-unique :
      (size : ℕ) (bs : List (Item V)) (k : ℕ) (v w : V)
      → IsRobinHood size bs
      → Has bs k v
      → Has bs k w
      → v ≡ w
  Has-unique size bs k v w r (i, a) (j, b) =
      let same : i ≡ j =
        r.unique i j v w (omega (arith, a.inside, r.sized)) (omega (arith, b.inside, r.sized))
          a.value b.value (a.key ∙ sym b.key) in
      let here : (bucket bs j).value ≡ some v =
        ap (λ n. (bucket bs n).value) (sym same) ∙ a.value in
      let there = b.value in cc

  occupied-none : (b : Item V) → occupied b ≡ false → b.value ≡ none
  unfolding occupied
  occupied-none b e = ground arith

  pub one_if_some : (b : Item V) (v : V) → b.value ≡ some v → to_nat (occupied b) ≡ 1
  unfolding occupied
  one_if_some b v e = rw e

  pub zero_if_none : (b : Item V) → b.value ≡ none → to_nat (occupied b) ≡ 0
  unfolding occupied
  zero_if_none b e = rw e

  -- Where fewer buckets are in use than there are, one is free.
  pub free_bucket :
      (bs : List (Item V))
      → count occupied bs < length bs
      → (i : ℕ) × (i < length bs) × ((bucket bs i).value ≡ none)
  free_bucket [] h = absurd (omega arith)
  free_bucket (b ∷ bs) h = elim (Bool-cases (occupied b)) [
    | inr free ↦ (0, omega arith, occupied-none b free)
    | inl used ↦
        let one : to_nat (occupied b) ≡ 1 = rw used in
        let fewer : count occupied bs < length bs = omega arith in
        let (i, lt, e) = free_bucket bs fewer in (suc i, omega arith, e)
  ]

  -- An empty table of a positive size is valid and maps no key.
  pub make-IsValid :
      (size : ℕ) (owner : Bool)
      → 0 < size
      → IsValid (make {V = V} size owner)
        × ((k : ℕ) (v : V) → ¬ Has (make {V = V} size owner).buckets k v)
  unfolding make
  make-IsValid size owner h =
      let free : (i : ℕ) → (bucket (replicate size (empty_item {V = V})) i).value ≡ none =
        λ i. ap (λ (b : Item V). b.value) (get_or-replicate size i empty_item) in
      (
        record {
          layout = record {
            sized = length-replicate size empty_item;
            pos = h;
            home = λ i v lt e. cc (free i);
            path = λ i v lt e. cc (free i);
            unique = λ i j v w lt lt' e. cc (free i);
          };
          counted = count-replicate V size;
          room = h;
        },
        λ k v m. let a = m.1.value in cc (free m.0),
      )
