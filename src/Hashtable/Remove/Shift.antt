-- ===== src/Hashtable/Remove/Shift.antt =====
-- One round of the backward shift, and its end.
use htop.Prelude.{
  ℕ, suc, ◌-◌, ◌%◌, ◌≤◌, ◌<◌, ◌≡◌, ◌≢◌, refl, sym, ap, subst, ◌∙◌, ◌⊎◌, ◌↔◌, inl, inr, some, List,
  arith, set, length-set,
}
use htop.Hashtable.{Item, bucket, next}
use htop.Hashtable.Walk.{walk, walk-suc, walk-lt, next-lt}
use htop.Hashtable.Invariant.{Full}
use htop.Hashtable.Write.{same_or_not, written_self, written_other}
use htop.Hashtable.Remove.Gap.{HasGap, HasBut, crossing, next-ne, next-injective}

module _ {ℓ} {V : Type ℓ} (size : ℕ) (bs : List (Item V)) (gap : ℕ) (v : V) where
  abbrev after : ℕ
  after = next size gap

  abbrev pub moved : Item V
  moved = record (bucket bs after) { probe = (bucket bs after).probe - 1 }

  abbrev pub shifted : List (Item V)
  shifted = set bs gap moved

  -- What holds at a round that moves an entry.
  pub record Moves : Type ℓ where
    pub big : 1 < size
    pub gapped : HasGap size bs gap
    pub value : (bucket bs after).value ≡ some v
    pub away : 0 < (bucket bs after).probe

  module _ (m : Moves) where
    after-lt : after < size
    after-lt = next-lt size gap m.gapped.inside

    after-ne : after ≢ gap
    after-ne = next-ne size gap m.big m.gapped.inside

    at_gap : bucket shifted gap ≡ moved
    at_gap = written_self bs gap moved (omega (arith, m.gapped.inside, m.gapped.sized))

    elsewhere : (i : ℕ) → i ≢ gap → bucket shifted i ≡ bucket bs i
    elsewhere = written_other bs gap moved

    -- The moved entry is one step nearer to its home.
    moved_home : walk size (moved.key % size) moved.probe ≡ gap
    moved_home =
        let h = (bucket bs after).key % size in
        let n = (bucket bs after).probe - 1 in
        let whole : suc n ≡ (bucket bs after).probe = omega (arith, m.away) in
        let last : next size (walk size h n) ≡ next size gap =
          sym (walk-suc size h n)
          ∙ ap (walk size h) whole
          ∙ m.gapped.home after v after-lt after-ne m.value in
        next-injective size (walk size h n) gap (walk-lt size h n (omega (arith, m.gapped.inside)))
          m.gapped.inside last

    -- A bucket on a path is full afterwards too, if at the gap the moved entry is far enough.
    Full-shifted :
        (j q : ℕ) → (j ≡ gap → q ≤ moved.probe) → (j ≢ gap → Full bs j q) → Full shifted j q
    Full-shifted j q near other = elim (same_or_not j gap) [
      | inl same ↦
          let there : bucket shifted j ≡ moved = ap (bucket shifted) same ∙ at_gap in
          record {
            holds = v;
            value = ap (λ (b : Item V). b.value) there ∙ m.value;
            far = rw (ap (λ (b : Item V). b.probe) there) (near same);
          }
      | inr ne ↦
          let f = other ne in
          let there = elsewhere j ne in
          record {
            holds = f.holds;
            value = ap (λ (b : Item V). b.value) there ∙ f.value;
            far = rw (ap (λ (b : Item V). b.probe) there) f.far;
          }
    ]

    Placed : ℕ → Item V → Type ℓ
    Placed i b =
        (walk size (b.key % size) b.probe ≡ i)
        × ((q : ℕ)
            → q < b.probe
            → walk size (b.key % size) q ≢ after
            → Full shifted (walk size (b.key % size) q) q)

    placed :
        (i : ℕ) (w : V)
        → i < size
        → i ≢ after
        → (bucket shifted i).value ≡ some w
        → Placed i (bucket shifted i)
    unfolding Placed
    placed i w lt ne e = elim (same_or_not i gap) [
      | inl same ↦ subst (Placed i) (sym (ap (bucket shifted) same ∙ at_gap)) (
        moved_home ∙ sym same,
        λ q less other.
            Full-shifted (walk size (moved.key % size) q) q (λ back. omega arith)
              (λ apart. m.gapped.path after v after-lt after-ne m.value q (omega arith) apart),
      )
      | inr far ↦
          let there = elsewhere i far in
          let used : (bucket bs i).value ≡ some w = ap (λ (b : Item V). b.value) (sym there) ∙ e in
          subst (Placed i) (sym there) (
            m.gapped.home i w lt far used,
            λ q less other.
                Full-shifted (walk size ((bucket bs i).key % size) q) q
                  (λ back.
                    let f = crossing size bs gap i w m.big m.gapped lt far ne used q less back in
                    let q_far = f.far in omega arith)
                  (λ apart. m.gapped.path i w lt far used q less apart),
          )
    ]

    -- Where an entry of the new table stood in the old one.
    record Origin (i : ℕ) (w : V) : Type ℓ where
      index : ℕ
      inside : index < size
      off_gap : index ≢ gap
      value : (bucket bs index).value ≡ some w
      key : (bucket bs index).key ≡ (bucket shifted i).key
      from : ((i ≡ gap) × (index ≡ after)) ⊎ (i ≡ index)

    origin : (i : ℕ) (w : V) → i < size → i ≢ after → (bucket shifted i).value ≡ some w → Origin i w
    origin i w lt ne e = elim (same_or_not i gap) [
      | inl same ↦
          let there : bucket shifted i ≡ moved = ap (bucket shifted) same ∙ at_gap in
          record {
            index = after;
            inside = after-lt;
            off_gap = after-ne;
            value = ap (λ (b : Item V). b.value) (sym there) ∙ e;
            key = ap (λ (b : Item V). b.key) (sym there);
            from = inl (same, refl);
          }
      | inr far ↦
          let there = elsewhere i far in
          record {
            index = i;
            inside = lt;
            off_gap = far;
            value = ap (λ (b : Item V). b.value) (sym there) ∙ e;
            key = ap (λ (b : Item V). b.key) (sym there);
            from = inr refl;
          }
    ]

    shifted_unique :
        (i j : ℕ) (w w' : V)
        → i < size
        → j < size
        → i ≢ after
        → j ≢ after
        → (bucket shifted i).value ≡ some w
        → (bucket shifted j).value ≡ some w'
        → (bucket shifted i).key ≡ (bucket shifted j).key
        → i ≡ j
    shifted_unique i j w w' li lj ni nj ei ej k =
        let a = origin i w li ni ei in
        let b = origin j w' lj nj ej in
        let same : a.index ≡ b.index =
          m.gapped.unique a.index b.index w w' a.inside b.inside a.off_gap b.off_gap a.value b.value
            (a.key ∙ k ∙ sym b.key) in
        elim a.from [
          | inl (ai, a') ↦ elim b.from [
            | inl (bj, b') ↦ ai ∙ sym bj
            | inr bj ↦ absurd (nj (bj ∙ sym same ∙ a'))
          ]
          | inr ai ↦ elim b.from [
            | inl (bj, b') ↦ absurd (ni (ai ∙ same ∙ b'))
            | inr bj ↦ ai ∙ same ∙ sym bj
          ]
        ]

    -- The gap moves on with the round, and the other entries are those of before.
    pub shifted-HasGap : HasGap size shifted after
    unfolding Placed
    shifted-HasGap = record {
      sized = length-set bs gap moved ∙ m.gapped.sized;
      inside = after-lt;
      home = λ i w lt ne e. (placed i w lt ne e).0;
      path = λ i w lt ne e. (placed i w lt ne e).1;
      unique = shifted_unique;
    }

    pub shifted-HasBut : (k : ℕ) (w : V) → HasBut shifted after k w ↔ HasBut bs gap k w
    shifted-HasBut k w = (back, on)
      where
        back : HasBut shifted after k w → HasBut bs gap k w
        back (i, ne, a) =
            let o =
              origin i w (omega (arith, a.inside, length-set bs gap moved, m.gapped.sized)) ne
                a.value in
            (
              o.index,
              o.off_gap,
              record {
                inside = omega (arith, o.inside, m.gapped.sized);
                key = o.key ∙ a.key;
                value = o.value;
              },
            )

        on : HasBut bs gap k w → HasBut shifted after k w
        on (i, ne, a) = elim (same_or_not i after) [
          | inl same ↦ (
            gap,
            λ e. after-ne (sym e),
            record {
              inside = omega (arith, length-set bs gap moved, m.gapped.sized, m.gapped.inside);
              key =
                  ap (λ (b : Item V). b.key) at_gap
                  ∙ ap (λ n. (bucket bs n).key) (sym same)
                  ∙ a.key;
              value =
                  ap (λ (b : Item V). b.value) at_gap
                  ∙ ap (λ n. (bucket bs n).value) (sym same)
                  ∙ a.value;
            },
          )
          | inr other ↦
              let there = elsewhere i ne in
              (
                i,
                other,
                record {
                  inside = omega (arith, length-set bs gap moved, a.inside);
                  key = ap (λ (b : Item V). b.key) there ∙ a.key;
                  value = ap (λ (b : Item V). b.value) there ∙ a.value;
                },
              )
        ]
