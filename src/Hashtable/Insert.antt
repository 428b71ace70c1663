-- ===== src/Hashtable/Insert.antt =====
-- What `insert` keeps: the entry that its loop carries, and the two writes that end it.
pub mod Carry
pub mod Loop
use htop.Prelude.{
  ℕ, zero, suc, ◌+◌, ◌%◌, ◌≤◌, ◌<◌, ◌≡◌, ◌≢◌, refl, sym, ap, subst, ◌∙◌, ◌⊎◌, ◌↔◌, inl, inr, Bool,
  true, false, Option, none, some, List, [], arith, ltb, ◌==◌, Bool-cases, ==_refl, Option-cases,
  length, get_or, set, length-set, get_or-set_self, get_or-set_ne,
}
use native.Mathlib.Numerals.{add-one}
use htop.Prelude.Count.{count, count-set, to_nat}
use htop.Hashtable.{Item, Table, bucket, empty_item, occupied, next, next_mod, insert_loop, insert}
use htop.Hashtable.Walk.{walk, walk-suc, walk-lt, next-lt, next_mod-eq-next, walk_reaches}
use htop.Hashtable.Invariant.{
  At, Has, Full, PathFull, IsRobinHood, IsValid, Has-unique, free_bucket, one_if_some, zero_if_none,
}
use htop.Hashtable.Write.{
  same_or_not, Full-written, Has-written, written-Has, written-new, written_self, written_other,
  Fits, set-IsRobinHood,
}

module _ {ℓ} {V : Type ℓ} where
  -- What an insertion of `v` under `key` has made of a table.
  pub record Inserted (t : Table V) (key : ℕ) (v : V) (r : Table V) : Type ℓ where
    pub size : r.size ≡ t.size
    pub owner : r.owner ≡ t.owner
    pub layout : IsRobinHood t.size r.buckets
    pub has : Has r.buckets key v
    pub keeps : (k : ℕ) (w : V) → k ≢ key → Has t.buckets k w → Has r.buckets k w
    pub only : (k : ℕ) (w : V) → k ≢ key → Has r.buckets k w → Has t.buckets k w
    pub counted : count occupied r.buckets + t.items ≡ count occupied t.buckets + r.items
    pub grown : r.items ≤ t.items + 1

  -- Where the loop stands: the entry that it carries has come along its path, and an entry under
  -- the same key is not behind.
  pub record Carries (t : Table V) (index key probe : ℕ) : Type ℓ where
    pub layout : IsRobinHood t.size t.buckets
    pub there : walk t.size (key % t.size) probe ≡ index
    pub inside : index < t.size
    pub path : PathFull t.buckets t.size (key % t.size) probe
    pub ahead :
        (j : ℕ) (w : V)
        → j < t.size
        → (bucket t.buckets j).value ≡ some w
        → (bucket t.buckets j).key ≡ key
        → probe ≤ (bucket t.buckets j).probe

  -- An entry under the carried key that is as far from home stands right here.
  pub meets :
      (t : Table V) (index key probe j : ℕ) (w : V)
      → Carries t index key probe
      → j < t.size
      → (bucket t.buckets j).value ≡ some w
      → (bucket t.buckets j).key ≡ key
      → (bucket t.buckets j).probe ≡ probe
      → j ≡ index
  meets t index key probe j w c lt e k same =
      sym (c.layout.home j w lt e)
      ∙ ap (λ m. walk t.size (m % t.size) (bucket t.buckets j).probe) k
      ∙ ap (walk t.size (key % t.size)) same
      ∙ c.there

  -- Unless its bucket is full of an entry as far from home, the carried key stands nowhere else.
  here_only :
      (t : Table V) (index key probe j : ℕ) (w : V)
      → Carries t index key probe
      → ¬ Full t.buckets index probe
      → j < t.size
      → (bucket t.buckets j).value ≡ some w
      → (bucket t.buckets j).key ≡ key
      → j ≡ index
  here_only t index key probe j w c empty lt e k =
      elim (Bool-cases (probe == (bucket t.buckets j).probe)) [
        | inl last ↦ meets t index key probe j w c lt e k (ground arith)
        | inr before ↦
            let ahead = c.ahead j w lt e k in
            let full = c.layout.path j w lt e probe (ground arith) in
            absurd (
              empty (
                subst (λ i. Full t.buckets i probe)
                  (ap (λ m. walk t.size (m % t.size) probe) k ∙ c.there) full))
      ]

  abbrev pub item_of : ℕ → ℕ → V → Item V
  item_of key probe v = record { key = key; probe = probe; value = some v }

  -- The carried entry may be written into a bucket that is not full of one as far from home.
  pub carried-Fits :
      (t : Table V) (index key probe : ℕ) (v : V)
      → Carries t index key probe
      → ((q : ℕ) → Full t.buckets index q → q < probe)
      → Fits t.size t.buckets index (item_of key probe v) v
  carried-Fits t index key probe v c nearer = record {
    inside = c.inside;
    value = refl;
    home = c.there;
    path = c.path;
    far = λ q f. omega (arith, nearer q f);
    apart = λ j w lt e k.
        here_only t index key probe j w c (λ f. absurd (omega (arith, nearer probe f))) lt e k;
  }

  -- The new table where the bucket at the carried entry's index is free.
  pub free-Inserted :
      (t : Table V) (index key probe : ℕ) (v : V)
      → Carries t index key probe
      → (bucket t.buckets index).value ≡ none
      → Inserted t key v
          (record t { items = t.items + 1; buckets = set t.buckets index (item_of key probe v) })
  free-Inserted t index key probe v c free =
      let item = item_of key probe v in
      let h : index < length t.buckets = omega (arith, c.inside, c.layout.sized) in
      let fits =
        carried-Fits t index key probe v c (λ q f. let there = f.value in cc (free, there)) in
      record {
        size = refl;
        owner = refl;
        layout = set-IsRobinHood t.size t.buckets index item v c.layout fits;
        has = written-new t.buckets index item v h refl;
        keeps = λ k w ne. Has-written t.buckets index item k w (λ i a same.
            let there = ap (λ n. (bucket t.buckets n).value) (sym same) ∙ a.value in
            cc (free, there));
        only = λ k w ne. written-Has t.buckets index item k w h (λ e. ne (sym e));
        counted = omega (
          arith,
          count-set occupied t.buckets index item empty_item h,
          one_if_some item v refl,
          zero_if_none (bucket t.buckets index) free,
        );
        grown = omega arith;
      }

  -- The new table where the bucket holds the same key.
  pub match-Inserted :
      (t : Table V) (index key : ℕ) (v old : V)
      → IsRobinHood t.size t.buckets
      → index < t.size
      → (bucket t.buckets index).value ≡ some old
      → (bucket t.buckets index).key ≡ key
      → Inserted t key v (record t {
        buckets = set t.buckets index (record (bucket t.buckets index) { value = some v });
      })
  match-Inserted t index key v old r lt e k =
      let b = bucket t.buckets index in
      let item : Item V = record b { value = some v } in
      let h : index < length t.buckets = omega (arith, lt, r.sized) in
      let fits : Fits t.size t.buckets index item v = record {
        inside = lt;
        value = refl;
        home = r.home index old lt e;
        path = r.path index old lt e;
        far = λ q f. f.far;
        apart = λ j w lj ej kj. r.unique j index w old lj lt ej e kj;
      } in
      record {
        size = refl;
        owner = refl;
        layout = set-IsRobinHood t.size t.buckets index item v r fits;
        has =
            subst (λ m. Has (set t.buckets index item) m v) k
              (written-new t.buckets index item v h refl);
        keeps = λ m w ne.
            Has-written t.buckets index item m w
              (λ i a same. ne (sym a.key ∙ ap (λ n. (bucket t.buckets n).key) same ∙ k));
        only = λ m w ne. written-Has t.buckets index item m w h (λ q. ne (sym q ∙ k));
        counted = omega (
          arith,
          count-set occupied t.buckets index item empty_item h,
          one_if_some item v refl,
          one_if_some b old e,
        );
        grown = omega arith;
      }
