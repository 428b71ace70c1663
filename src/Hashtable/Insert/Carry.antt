-- ===== src/Hashtable/Insert/Carry.antt =====
-- The two rounds of `insert` that go on: past a bucket, or with the entry that was displaced.
use htop.Prelude.{
  ℕ, ◌+◌, ◌%◌, ◌≤◌, ◌<◌, ◌≡◌, ◌≢◌, refl, sym, ap, subst, ◌∙◌, inl, inr, some, arith, ◌==◌,
  Bool-cases, length, set,
}
use native.Mathlib.Numerals.{add-one}
use htop.Prelude.Count.{count-set}
use htop.Hashtable.{Item, Table, bucket, empty_item, occupied, next}
use htop.Hashtable.Walk.{walk, walk-suc, next-lt}
use htop.Hashtable.Invariant.{Has, Full, Has-unique, one_if_some}
use htop.Hashtable.Write.{
  same_or_not, Full-written, Has-written, written-Has, written-new, written_self, written_other,
  set-IsRobinHood,
}
use htop.Hashtable.Insert.{Inserted, Carries, meets, item_of, carried-Fits}

module _ {ℓ} {V : Type ℓ} where
  -- Where the carried entry displaces another: the displaced one is carried on.
  unfoldable pub swapped : Table V → ℕ → ℕ → ℕ → V → Table V
  swapped t index key probe v = record t { buckets = set t.buckets index (item_of key probe v) }

  module _ (t : Table V) (index key probe : ℕ) (v old : V) (c : Carries t index key probe)
      (used : (bucket t.buckets index).value ≡ some old) (miss : (bucket t.buckets index).key ≢ key)
      (poorer : (bucket t.buckets index).probe < probe) where
    abbrev b : Item V
    b = bucket t.buckets index

    abbrev item : Item V
    item = item_of key probe v

    inside : index < length t.buckets
    inside = omega (arith, c.inside, c.layout.sized)

    nearer : (q : ℕ) → Full t.buckets index q → q < probe
    nearer q f = omega (arith, f.far, poorer)

    pub swapped-Carries :
        Carries (swapped t index key probe v) (next t.size index) b.key (b.probe + 1)
    unfolding swapped
    swapped-Carries =
        let fits = carried-Fits t index key probe v c nearer in
        let bs' = set t.buckets index item in
        let r = c.layout in
        let keep : (j q : ℕ) → Full t.buckets j q → Full bs' j q =
          λ j q. Full-written t.buckets index item v j q inside refl (fits.far q) in
        let home = r.home index old c.inside used in
        record {
          layout = set-IsRobinHood t.size t.buckets index item v r fits;
          there = rw add-one (walk-suc t.size (b.key % t.size) b.probe ∙ ap (next t.size) home);
          inside = next-lt t.size index c.inside;
          path = λ q lt. elim (Bool-cases (q == b.probe)) [
            | inl last ↦
                let e : q ≡ b.probe = ground arith in
                let full : Full bs' index b.probe =
                  keep index b.probe (record { holds = old; value = used; far = omega arith }) in
                subst (λ n. Full bs' (walk t.size (b.key % t.size) n) n) (sym e)
                  (subst (λ i. Full bs' i b.probe) (sym home) full)
            | inr before ↦ keep _ q (r.path index old c.inside used q (ground arith))
          ];
          ahead = λ j w lt e k. elim (same_or_not j index) [
            | inl same ↦ absurd (
                miss (
                  sym k
                  ∙ ap (λ (x : Item V). x.key)
                      (ap (bucket bs') same ∙ written_self t.buckets index item inside)))
            | inr other ↦
                let there = written_other t.buckets index item j other in
                absurd (
                  other (
                    r.unique j index w old lt c.inside
                      (ap (λ (x : Item V). x.value) (sym there) ∙ e) used
                      (ap (λ (x : Item V). x.key) (sym there) ∙ k)))
          ];
        }

    here : Has t.buckets b.key old
    here = (index, record { inside = inside; key = refl; value = used })

    pub swapped-Inserted :
        (r : Table V) → Inserted (swapped t index key probe v) b.key old r → Inserted t key v r
    unfolding swapped
    swapped-Inserted r f = record {
      size = f.size;
      owner = f.owner;
      layout = f.layout;
      has = f.keeps key v (λ e. miss (sym e)) (written-new t.buckets index item v inside refl);
      keeps = λ k w ne h. elim (same_or_not k b.key) [
        | inl same ↦
            let h' : Has t.buckets b.key w = subst (λ m. Has t.buckets m w) same h in
            let eq = Has-unique t.size t.buckets b.key old w c.layout here h' in
            subst (λ m. Has r.buckets m w) (sym same) (subst (Has r.buckets b.key) eq f.has)
        | inr other ↦ f.keeps k w other (
            Has-written t.buckets index item k w
              (λ i a at_index. other (sym a.key ∙ ap (λ n. (bucket t.buckets n).key) at_index)) h)
      ];
      only = λ k w ne h. elim (same_or_not k b.key) [
        | inl same ↦
            let h' : Has r.buckets b.key w = subst (λ m. Has r.buckets m w) same h in
            let eq = Has-unique t.size r.buckets b.key old w f.layout f.has h' in
            subst (λ m. Has t.buckets m w) (sym same) (subst (Has t.buckets b.key) eq here)
        | inr other ↦
            written-Has t.buckets index item k w inside (λ e. ne (sym e)) (f.only k w other h)
      ];
      counted = omega (
        arith,
        f.counted,
        count-set occupied t.buckets index item empty_item inside,
        one_if_some item v refl,
        one_if_some b old used,
      );
      grown = f.grown;
    }

  -- Where the bucket is full of an entry as far from its home, the carried one goes past it.
  pub past-Carries :
      (t : Table V) (index key probe : ℕ) (old : V)
      → Carries t index key probe
      → (bucket t.buckets index).value ≡ some old
      → (bucket t.buckets index).key ≢ key
      → probe ≤ (bucket t.buckets index).probe
      → Carries t (next t.size index) key (probe + 1)
  past-Carries t index key probe old c used miss far = record {
    layout = c.layout;
    there = rw add-one (walk-suc t.size (key % t.size) probe ∙ ap (next t.size) c.there);
    inside = next-lt t.size index c.inside;
    path = λ q lt. elim (Bool-cases (q == probe)) [
      | inl last ↦
          let e : q ≡ probe = ground arith in
          let full : Full t.buckets index probe = record { holds = old; value = used; far = far } in
          subst (λ n. Full t.buckets (walk t.size (key % t.size) n) n) (sym e)
            (subst (λ i. Full t.buckets i probe) (sym c.there) full)
      | inr before ↦ c.path q (ground arith)
    ];
    ahead = λ j w lt e k. elim (Bool-cases (probe == (bucket t.buckets j).probe)) [
      | inl last ↦
          let here = meets t index key probe j w c lt e k (ground arith) in
          absurd (miss (sym (ap (λ i. (bucket t.buckets i).key) here) ∙ k))
      | inr before ↦ ground (arith, c.ahead j w lt e k)
    ];
  }
