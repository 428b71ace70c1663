-- ===== src/Hashtable/Write.antt =====
-- Writing one bucket of a table: what it holds afterwards, and when the invariant is kept.
use htop.Prelude.{
  ℕ, ◌%◌, ◌≤◌, ◌<◌, ◌≡◌, ◌≢◌, sym, ap, subst, ◌∙◌, ◌⊎◌, inl, inr, some, List, arith, ◌==◌,
  Bool-cases, length, set, length-set, get_or-set_self, get_or-set_ne,
}
use htop.Hashtable.{Item, bucket, empty_item}
use htop.Hashtable.Walk.{walk}
use htop.Hashtable.Invariant.{At, Has, Full, PathFull, IsRobinHood}

-- Two indices are one or not.
pub same_or_not : (i j : ℕ) → (i ≡ j) ⊎ (i ≢ j)
same_or_not i j = elim (Bool-cases (i == j)) [
  | inl e ↦ inl (ground arith)
  | inr e ↦ inr (ground arith)
]

module _ {ℓ} {V : Type ℓ} (bs : List (Item V)) (index : ℕ) (item : Item V) where
  abbrev written : List (Item V)
  written = set bs index item

  pub written_self : index < length bs → bucket written index ≡ item
  written_self h = get_or-set_self bs index item empty_item h

  pub written_other : (j : ℕ) → j ≢ index → bucket written j ≡ bucket bs j
  written_other j ne = get_or-set_ne bs index j item empty_item (λ e. ne (sym e))

  -- The entries under another key, elsewhere, are those of before.
  pub Has-written :
      (k : ℕ) (v : V) → ((i : ℕ) (a : At bs k v i) → i ≢ index) → Has bs k v → Has written k v
  Has-written k v apart (i, a) =
      let e = written_other i (apart i a) in
      (
        i,
        record {
          inside = rw length-set a.inside;
          key = ap (λ (b : Item V). b.key) e ∙ a.key;
          value = ap (λ (b : Item V). b.value) e ∙ a.value;
        },
      )

  pub written-Has :
      (k : ℕ) (v : V) → index < length bs → item.key ≢ k → Has written k v → Has bs k v
  written-Has k v h ne (i, a) = elim (same_or_not i index) [
    | inl same ↦
        absurd (
          ne (sym (ap (λ (b : Item V). b.key) (ap (bucket written) same ∙ written_self h)) ∙ a.key))
    | inr other ↦
        let e = written_other i other in
        (
          i,
          record {
            inside = rw length-set at a.inside;
            key = sym (ap (λ (b : Item V). b.key) e) ∙ a.key;
            value = sym (ap (λ (b : Item V). b.value) e) ∙ a.value;
          },
        )
  ]

  pub written-new : (v : V) → index < length bs → item.value ≡ some v → Has written item.key v
  written-new v h e = (
    index,
    record {
      inside = rw length-set h;
      key = ap (λ (b : Item V). b.key) (written_self h);
      value = ap (λ (b : Item V). b.value) (written_self h) ∙ e;
    },
  )

  -- A bucket that was full stays so, if the written one is no nearer to its home than before.
  pub Full-written :
      (v : V) (j q : ℕ)
      → index < length bs
      → item.value ≡ some v
      → (Full bs index q → q ≤ item.probe)
      → Full bs j q
      → Full written j q
  Full-written v j q h e far f = elim (same_or_not j index) [
    | inl same ↦
        let at_index : Full bs index q = subst (λ i. Full bs i q) same f in
        let item_there = ap (bucket written) same ∙ written_self h in
        record {
          holds = v;
          value = ap (λ (b : Item V). b.value) item_there ∙ e;
          far = rw (ap (λ (b : Item V). b.probe) item_there) (far at_index);
        }
    | inr other ↦
        let there = written_other j other in
        record {
          holds = f.holds;
          value = ap (λ (b : Item V). b.value) there ∙ f.value;
          far = rw (ap (λ (b : Item V). b.probe) there) f.far;
        }
  ]

module _ {ℓ} {V : Type ℓ} (size : ℕ) (bs : List (Item V)) (index : ℕ) (item : Item V) (v : V) where
  -- What a written entry must meet for the invariant to be kept.
  pub record Fits : Type ℓ where
    pub inside : index < size
    pub value : item.value ≡ some v
    pub home : walk size (item.key % size) item.probe ≡ index
    pub path : PathFull bs size (item.key % size) item.probe
    pub far : (q : ℕ) → Full bs index q → q ≤ item.probe
    pub apart :
        (j : ℕ) (w : V)
        → j < size
        → (bucket bs j).value ≡ some w
        → (bucket bs j).key ≡ item.key
        → j ≡ index

  -- The entry `b` stands at its place `i`.
  abbrev Settled : ℕ → Item V → Type ℓ
  Settled i b = (walk size (b.key % size) b.probe ≡ i) × PathFull bs size (b.key % size) b.probe

  settled :
      IsRobinHood size bs
      → Fits
      → (i : ℕ) (w : V) → i < size
      → (bucket (set bs index item) i).value ≡ some w
      → Settled i (bucket (set bs index item) i)
  settled r f i w lt e = elim (same_or_not i index) [
    | inl same ↦
        let there : bucket (set bs index item) i ≡ item =
          ap (bucket (set bs index item)) same
          ∙ written_self bs index item (omega (arith, f.inside, r.sized)) in
        subst (λ b. Settled i b) (sym there) (f.home ∙ sym same, f.path)
    | inr ne ↦
        let there = written_other bs index item i ne in
        let used : (bucket bs i).value ≡ some w = ap (λ (b : Item V). b.value) (sym there) ∙ e in
        subst (λ b. Settled i b) (sym there) (r.home i w lt used, r.path i w lt used)
  ]

  -- The key of the written entry stands nowhere else.
  alone :
      IsRobinHood size bs
      → Fits
      → (i j : ℕ) (w : V) → i ≡ index
      → j < size
      → (bucket (set bs index item) j).value ≡ some w
      → (bucket (set bs index item) i).key ≡ (bucket (set bs index item) j).key
      → i ≡ j
  alone r f i j w si lj e k = elim (same_or_not j index) [
    | inl sj ↦ si ∙ sym sj
    | inr nj ↦
        let there = written_other bs index item j nj in
        let key_i : (bucket (set bs index item) i).key ≡ item.key =
          ap (λ (b : Item V). b.key)
            (ap (bucket (set bs index item)) si
              ∙ written_self bs index item (omega (arith, f.inside, r.sized))) in
        absurd (
          nj (
            f.apart j w lj (ap (λ (b : Item V). b.value) (sym there) ∙ e)
              (ap (λ (b : Item V). b.key) (sym there) ∙ sym k ∙ key_i)))
  ]

  pub set-IsRobinHood : IsRobinHood size bs → Fits → IsRobinHood size (set bs index item)
  set-IsRobinHood r f =
      let h : index < length bs = omega (arith, f.inside, r.sized) in
      let other = written_other bs index item in
      record {
        sized = length-set bs index item ∙ r.sized;
        pos = r.pos;
        home = λ i w lt e. (settled r f i w lt e).0;
        path = λ i w lt e q less.
            Full-written bs index item v _ q h f.value (f.far q) ((settled r f i w lt e).1 q less);
        unique = λ i j w w' li lj ei ej ek. elim (same_or_not i index) [
          | inl si ↦ alone r f i j w' si lj ej ek
          | inr ni ↦ elim (same_or_not j index) [
            | inl sj ↦ sym (alone r f j i w sj li ei (sym ek))
            | inr nj ↦
                let oi = other i ni in
                let oj = other j nj in
                r.unique i j w w' li lj (ap (λ (b : Item V). b.value) (sym oi) ∙ ei)
                  (ap (λ (b : Item V). b.value) (sym oj) ∙ ej)
                  (ap (λ (b : Item V). b.key) (sym oi) ∙ ek ∙ ap (λ (b : Item V). b.key) oj)
          ]
        ];
      }
