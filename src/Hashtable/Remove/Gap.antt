-- ===== src/Hashtable/Remove/Gap.antt =====
-- A table in the middle of a backward shift: the bucket at the gap counts as free, and the paths of
-- the entries may lead across it.
use htop.Prelude.{
  ℕ, suc, ◌%◌, ◌<◌, ◌≡◌, ◌≢◌, sym, ap, subst, ◌∙◌, inl, inr, some, List, arith, length,
}
use htop.Hashtable.{Item, bucket, next}
use htop.Hashtable.Walk.{walk, walk-suc}
use htop.Hashtable.Invariant.{At, Full, IsRobinHood}
use htop.Hashtable.Write.{same_or_not}

pub next-injective : (size i j : ℕ) → i < size → j < size → next size i ≡ next size j → i ≡ j
unfolding next
next-injective size i j hi hj e = ground arith

pub next-ne : (size i : ℕ) → 1 < size → i < size → next size i ≢ i
unfolding next
next-ne size i h hi e = ground arith

module _ {ℓ} {V : Type ℓ} where
  pub record HasGap (size : ℕ) (bs : List (Item V)) (gap : ℕ) : Type ℓ where
    pub sized : length bs ≡ size
    pub inside : gap < size
    pub home :
        (i : ℕ) (v : V)
        → i < size
        → i ≢ gap
        → (bucket bs i).value ≡ some v
        → walk size ((bucket bs i).key % size) (bucket bs i).probe ≡ i
    pub path :
        (i : ℕ) (v : V)
        → i < size
        → i ≢ gap
        → (bucket bs i).value ≡ some v
        → (q : ℕ) → q < (bucket bs i).probe
        → walk size ((bucket bs i).key % size) q ≢ gap
        → Full bs (walk size ((bucket bs i).key % size) q) q
    pub unique :
        (i j : ℕ) (v w : V)
        → i < size
        → j < size
        → i ≢ gap
        → j ≢ gap
        → (bucket bs i).value ≡ some v
        → (bucket bs j).value ≡ some w
        → (bucket bs i).key ≡ (bucket bs j).key
        → i ≡ j

  -- An entry elsewhere than at the gap.
  abbrev pub HasBut : List (Item V) → ℕ → ℕ → V → Type ℓ
  HasBut bs gap k v = (i : ℕ) × (i ≢ gap) × At bs k v i

  pub robin_hood-HasGap :
      (size : ℕ) (bs : List (Item V)) (gap : ℕ)
      → IsRobinHood size bs
      → gap < size
      → HasGap size bs gap
  robin_hood-HasGap size bs gap r h = record {
    sized = r.sized;
    inside = h;
    home = λ i v lt ne e. r.home i v lt e;
    path = λ i v lt ne e q less other. r.path i v lt e q less;
    unique = λ i j v w li lj ni nj e e' k. r.unique i j v w li lj e e' k;
  }

  -- An entry whose path leads across the gap stands behind it, or goes on in the next bucket.
  pub crossing :
      (size : ℕ) (bs : List (Item V)) (gap i : ℕ) (v : V)
      → 1 < size
      → HasGap size bs gap
      → i < size
      → i ≢ gap
      → i ≢ next size gap
      → (bucket bs i).value ≡ some v
      → (q : ℕ) → q < (bucket bs i).probe
      → walk size ((bucket bs i).key % size) q ≡ gap
      → Full bs (next size gap) (suc q)
  crossing size bs gap i v big g lt ne ne' e q less at_gap =
      let h = (bucket bs i).key % size in
      let there : walk size h (suc q) ≡ next size gap = walk-suc size h q ∙ ap (next size) at_gap in
      elim (same_or_not (suc q) (bucket bs i).probe) [
        | inl last ↦ absurd (ne' (sym (g.home i v lt ne e) ∙ ap (walk size h) (sym last) ∙ there))
        | inr before ↦
            subst (λ k. Full bs k (suc q)) there
              (g.path i v lt ne e (suc q) (omega arith)
                (λ back. next-ne size gap big g.inside (sym there ∙ back)))
      ]
