-- ===== src/Hashtable/Remove/Close.antt =====
-- The end of the backward shift: the bucket at the gap is emptied.
use htop.Prelude.{
  ℕ, ◌%◌, ◌<◌, ◌≡◌, ◌≢◌, sym, ap, subst, ◌∙◌, ◌↔◌, inl, inr, none, some, List, arith, set,
  length-set,
}
use htop.Hashtable.{Item, bucket, next}
use htop.Hashtable.Walk.{walk}
use htop.Hashtable.Invariant.{Has, Full, IsRobinHood}
use htop.Hashtable.Write.{same_or_not, written_self, written_other}
use htop.Hashtable.Remove.Gap.{HasGap, HasBut, crossing}

module _ {ℓ} {V : Type ℓ} (size : ℕ) (bs : List (Item V)) (gap : ℕ) where
  abbrev after : ℕ
  after = next size gap

  abbrev pub emptied : Item V
  emptied = record (bucket bs gap) { value = none }

  abbrev pub closed : List (Item V)
  closed = set bs gap emptied

  -- What holds where the loop stops: the next bucket is free, or its entry is at home.
  pub record Stops : Type ℓ where
    pub big : 1 < size
    pub gapped : HasGap size bs gap
    pub still : (v : V) → (bucket bs after).value ≡ some v → (bucket bs after).probe ≡ 0

  module _ (s : Stops) where
    at_gap : bucket closed gap ≡ emptied
    at_gap = written_self bs gap emptied (omega (arith, s.gapped.inside, s.gapped.sized))

    elsewhere : (i : ℕ) → i ≢ gap → bucket closed i ≡ bucket bs i
    elsewhere = written_other bs gap emptied

    off_gap : (i : ℕ) (w : V) → (bucket closed i).value ≡ some w → i ≢ gap
    off_gap i w e same =
        let there : (bucket closed i).value ≡ none =
          ap (λ (b : Item V). b.value) (ap (bucket closed) same ∙ at_gap) in
        cc

    was : (i : ℕ) (w : V) → (bucket closed i).value ≡ some w → (bucket bs i).value ≡ some w
    was i w e = ap (λ (b : Item V). b.value) (sym (elsewhere i (off_gap i w e))) ∙ e

    -- No path leads across the gap any more.
    no_crossing :
        (i : ℕ) (w : V)
        → i < size
        → i ≢ gap
        → (bucket bs i).value ≡ some w
        → (q : ℕ) → q < (bucket bs i).probe
        → walk size ((bucket bs i).key % size) q ≢ gap
    no_crossing i w lt ne e q less back = elim (same_or_not i after) [
      | inl next_one ↦
          let none_left : (bucket bs i).probe ≡ 0 =
            ap (λ n. (bucket bs n).probe) next_one
            ∙ s.still w (ap (λ n. (bucket bs n).value) (sym next_one) ∙ e) in
          absurd (omega arith)
      | inr other ↦
          let f = crossing size bs gap i w s.big s.gapped lt ne other e q less back in
          let far = f.far in let none_left = s.still f.holds f.value in absurd (omega arith)
    ]

    abbrev Placed : ℕ → Item V → Type ℓ
    Placed i b =
        (walk size (b.key % size) b.probe ≡ i)
        × ((q : ℕ) → q < b.probe → Full closed (walk size (b.key % size) q) q)

    placed :
        (i : ℕ) (w : V) → i < size → (bucket closed i).value ≡ some w → Placed i (bucket closed i)
    placed i w lt e =
        let ne = off_gap i w e in
        let used = was i w e in
        subst (Placed i) (sym (elsewhere i ne)) (
          s.gapped.home i w lt ne used,
          λ q less.
              let away = no_crossing i w lt ne used q less in
              let f = s.gapped.path i w lt ne used q less away in
              let there = elsewhere (walk size ((bucket bs i).key % size) q) away in
              record {
                holds = f.holds;
                value = ap (λ (b : Item V). b.value) there ∙ f.value;
                far = rw (ap (λ (b : Item V). b.probe) there) f.far;
              },
        )

    pub closed-IsRobinHood : IsRobinHood size closed
    closed-IsRobinHood = record {
      sized = length-set bs gap emptied ∙ s.gapped.sized;
      pos = omega (arith, s.big);
      home = λ i w lt e. (placed i w lt e).0;
      path = λ i w lt e q less. (placed i w lt e).1 q less;
      unique = λ i j w w' li lj ei ej k.
          let ni = off_gap i w ei in
          let nj = off_gap j w' ej in
          s.gapped.unique i j w w' li lj ni nj (was i w ei) (was j w' ej) (
            ap (λ (b : Item V). b.key) (sym (elsewhere i ni))
            ∙ k
            ∙ ap (λ (b : Item V). b.key) (elsewhere j nj));
    }

    pub closed-HasBut : (k : ℕ) (w : V) → Has closed k w ↔ HasBut bs gap k w
    closed-HasBut k w = (back, on)
      where
        back : Has closed k w → HasBut bs gap k w
        back (i, a) =
            let ne = off_gap i w a.value in
            let there = elsewhere i ne in
            (
              i,
              ne,
              record {
                inside = omega (arith, a.inside, length-set bs gap emptied);
                key = ap (λ (b : Item V). b.key) (sym there) ∙ a.key;
                value = was i w a.value;
              },
            )

        on : HasBut bs gap k w → Has closed k w
        on (i, ne, a) =
            let there = elsewhere i ne in
            (
              i,
              record {
                inside = omega (arith, a.inside, length-set bs gap emptied);
                key = ap (λ (b : Item V). b.key) there ∙ a.key;
                value = ap (λ (b : Item V). b.value) there ∙ a.value;
              },
            )
