-- ===== src/Hashtable/Resize.antt =====
-- `Hashtable_setSize`: the loop that inserts the old entries anew, and what comes of it.
use htop.Prelude.{
  ℕ, zero, suc, ◌+◌, ◌≤◌, ◌<◌, ◌≡◌, refl, sym, ap, subst, ◌∙◌, ◌⊎◌, ◌↔◌, inl, inr, Bool, none, some,
  List, [], ◌∷◌, ◌++◌, arith, leb, Bool-cases, Option-cases,
}
use htop.Prelude.Count.{count}
use htop.Hashtable.{Item, Table, occupied, make, insert, rehash, set_size}
use htop.Hashtable.Invariant.{
  At, Has, IsRobinHood, IsValid, Has-unique, make-IsValid, one_if_some, zero_if_none,
}
use htop.Hashtable.Write.{same_or_not}
use htop.Hashtable.Primes.{next_prime-some, max_prime}
use htop.Hashtable.Insert.{Inserted}
use htop.Hashtable.Insert.Loop.{insert-Inserted}

module _ {ℓ} {V : Type ℓ} where
  -- No key stands in two buckets of the list.
  abbrev pub KeysDiffer : List (Item V) → Type ℓ
  KeysDiffer bs = (k i j : ℕ) (v w : V) → At bs k v i → At bs k w j → i ≡ j

  pub IsRobinHood-KeysDiffer : (size : ℕ) (bs : List (Item V)) → IsRobinHood size bs → KeysDiffer bs
  IsRobinHood-KeysDiffer size bs r k i j v w a b =
      r.unique i j v w (omega (arith, a.inside, r.sized)) (omega (arith, b.inside, r.sized)) a.value
        b.value (a.key ∙ sym b.key)

  At-suc :
      (b : Item V) (bs : List (Item V)) (k i : ℕ) (v : V) → At bs k v i → At (b ∷ bs) k v (suc i)
  At-suc b bs k i v a = record { inside = omega (arith, a.inside); key = a.key; value = a.value }

  Has-cons : (b : Item V) (bs : List (Item V)) (k : ℕ) (v : V) → Has bs k v → Has (b ∷ bs) k v
  Has-cons b bs k v (i, a) = (suc i, At-suc b bs k i v a)

  uncons :
      (b : Item V) (bs : List (Item V)) (k i : ℕ) (v : V)
      → At (b ∷ bs) k v i
      → ((i ≡ 0) × (b.key ≡ k) × (b.value ≡ some v)) ⊎ Has bs k v
  uncons b bs k zero v a = inl (refl, a.key, a.value)
  uncons b bs k (suc i) v a =
      let lt = a.inside in inr (i, record { inside = omega arith; key = a.key; value = a.value })

  KeysDiffer-tail : (b : Item V) (bs : List (Item V)) → KeysDiffer (b ∷ bs) → KeysDiffer bs
  KeysDiffer-tail b bs u k i j v w x y =
      let e = u k (suc i) (suc j) v w (At-suc b bs k i v x) (At-suc b bs k j w y) in omega arith

  -- The entries of `t` and those of `bs`, and no others, in a valid table of the same size.
  pub record Joined (t : Table V) (bs : List (Item V)) (r : Table V) : Type ℓ where
    pub valid : IsValid r
    pub size : r.size ≡ t.size
    pub owner : r.owner ≡ t.owner
    pub from_table : (k : ℕ) (v : V) → Has t.buckets k v → Has r.buckets k v
    pub from_list : (k : ℕ) (v : V) → Has bs k v → Has r.buckets k v
    pub only : (k : ℕ) (v : V) → Has r.buckets k v → Has t.buckets k v ⊎ Has bs k v
    pub few : r.items ≤ t.items + count occupied bs

  -- What a change of size keeps.
  pub record Resized (t r : Table V) : Type ℓ where
    pub valid : IsValid r
    pub owner : r.owner ≡ t.owner
    pub entries : (k : ℕ) (v : V) → Has t.buckets k v ↔ Has r.buckets k v
    pub few : r.items ≤ t.items

  -- An entry in front of those of the list, already inserted.
  Joined-cons :
      (b : Item V) (bs : List (Item V)) (v : V) (t t' r : Table V)
      → b.value ≡ some v
      → ((w : V) → ¬ Has t.buckets b.key w)
      → ((w : V) → ¬ Has bs b.key w)
      → Inserted t b.key v t'
      → Joined t' bs r
      → Joined t (b ∷ bs) r
  Joined-cons b bs v t t' r e new apart f g = record {
    valid = g.valid;
    size = g.size ∙ f.size;
    owner = g.owner ∙ f.owner;
    from_table = λ k w h.
        g.from_table k w (f.keeps k w (λ same. new w (subst (λ m. Has t.buckets m w) same h)) h);
    from_list = λ k w h. elim (uncons b bs k h.0 w h.1) [
      | inl (_, bk, bv) ↦
          let eq : v ≡ w = cc in
          subst (λ m. Has r.buckets m w) bk
            (subst (Has r.buckets b.key) eq (g.from_table b.key v f.has))
      | inr later ↦ g.from_list k w later
    ];
    only = λ k w h. elim (g.only k w h) [
      | inl old ↦ elim (same_or_not k b.key) [
        | inl same ↦
            let old' : Has t'.buckets b.key w = subst (λ m. Has t'.buckets m w) same old in
            let eq = Has-unique t.size t'.buckets b.key v w f.layout f.has old' in
            inr (0, record { inside = omega arith; key = sym same; value = e ∙ ap some eq })
        | inr other ↦ inl (f.only k w other old)
      ]
      | inr later ↦ inr (Has-cons b bs k w later)
    ];
    few = omega (arith, g.few, f.grown, one_if_some b v e);
  }

  -- A free bucket adds nothing.
  Joined-skip :
      (b : Item V) (bs : List (Item V)) (t r : Table V)
      → b.value ≡ none
      → Joined t bs r
      → Joined t (b ∷ bs) r
  Joined-skip b bs t r free g = record {
    valid = g.valid;
    size = g.size;
    owner = g.owner;
    from_table = g.from_table;
    from_list = λ k w h. elim (uncons b bs k h.0 w h.1) [
      | inl (_, _, bv) ↦ cc (free, bv)
      | inr later ↦ g.from_list k w later
    ];
    only = λ k w h. elim (g.only k w h) [
      | inl old ↦ inl old
      | inr later ↦ inr (Has-cons b bs k w later)
    ];
    few = omega (arith, g.few, zero_if_none b free);
  }

  pub Inserted-IsValid :
      (t r : Table V) (key : ℕ) (v : V)
      → IsValid t
      → t.items + 1 < t.size
      → Inserted t key v r
      → IsValid r
  Inserted-IsValid t r key v valid room f = record {
    layout = subst (λ n. IsRobinHood n r.buckets) (sym f.size) f.layout;
    counted = omega (arith, f.counted, valid.counted);
    room = omega (arith, f.grown, f.size);
  }

module _ {ℓ} {V : Type ℓ} (same : V → V → Bool) where
  rehash-none :
      (b : Item V) (bs : List (Item V)) (t : Table V) (freed : List V)
      → b.value ≡ none
      → rehash same (b ∷ bs) t freed ≡ rehash same bs t freed
  unfolding rehash
  rehash-none b bs t freed e = rw (rehash, e)

  rehash-some :
      (b : Item V) (bs : List (Item V)) (v : V) (t t' : Table V) (freed more : List V)
      → b.value ≡ some v
      → insert same t b.key v ≡ some (t', more)
      → rehash same (b ∷ bs) t freed ≡ rehash same bs t' (freed ++ more)
  unfolding rehash
  rehash-some b bs v t t' freed more e run = rw (rehash, e, run)

  rehash-Joined :
      (bs : List (Item V)) (t : Table V) (freed : List V)
      → IsValid t
      → t.items + count occupied bs < t.size
      → KeysDiffer bs
      → ((k : ℕ) (v w : V) → Has bs k v → ¬ Has t.buckets k w)
      → (r : Table V) × (gone : List V) × (rehash same bs t freed ≡ some (r, gone)) × Joined t bs r
  unfolding rehash
  rehash-Joined [] t freed valid room differ apart = (
    t,
    freed,
    refl,
    record {
      valid = valid;
      size = refl;
      owner = refl;
      from_table = λ k v h. h;
      from_list = λ k v h. let lt = h.1.inside in absurd (omega arith);
      only = λ k v h. inl h;
      few = omega arith;
    },
  )
  rehash-Joined (b ∷ bs) t freed valid room differ apart = elim (Option-cases b.value) [
    | inl free ↦
        let (r, gone, run, g) =
          rehash-Joined bs t freed valid (omega (arith, room, zero_if_none b free))
            (KeysDiffer-tail b bs differ) (λ k v w h. apart k v w (Has-cons b bs k v h)) in
        (r, gone, rehash-none b bs t freed free ∙ run, Joined-skip b bs t r free g)
    | inr (v, e) ↦
        let (t', more, put, f) = insert-Inserted same t b.key v valid in
        let first : At (b ∷ bs) b.key v 0 = record {
          inside = omega arith;
          key = refl;
          value = e;
        } in
        let alone : (w : V) → ¬ Has bs b.key w = λ w h.
          let at = differ b.key 0 (suc h.0) v w first (At-suc b bs b.key h.0 w h.1) in
          omega arith in
        let one = one_if_some b v e in
        let (r, gone, run, g) =
          rehash-Joined bs t' (freed ++ more) (Inserted-IsValid t t' b.key v valid (omega arith) f)
            (omega (arith, f.grown, f.size)) (KeysDiffer-tail b bs differ)
            (λ k w w' h h'. elim (same_or_not k b.key) [
              | inl k_same ↦ alone w (subst (λ m. Has bs m w) k_same h)
              | inr other ↦ apart k w w' (Has-cons b bs k w h) (f.only k w' other h')
            ]) in
        (
          r,
          gone,
          rehash-some b bs v t t' freed more e put ∙ run,
          Joined-cons b bs v t t' r e (λ w. apart b.key v w (0, first)) alone f g,
        )
  ]

  -- `Hashtable_setSize` ends for every size of at most the last prime. Unless the size is too
  -- small for the entries, which leaves the table alone, the result is a valid table at least as
  -- large as asked for, with exactly the same entries.
  pub set_size-Resized :
      (t : Table V) (size : ℕ)
      → IsValid t
      → size ≤ max_prime
      → (r : Table V) × (freed : List V) × (set_size same t size ≡ some (r, freed))
        × Resized t r
        × (((t.items < size) × (size ≤ r.size)) ⊎ ((size ≤ t.items) × (r ≡ t)))
  unfolding set_size
  set_size-Resized t size valid h = elim (Bool-cases (leb size t.items)) [
    | inl small ↦ (
      t,
      [],
      rw small,
      record { valid = valid; owner = refl; entries = λ k v. (λ x. x, λ x. x); few = omega arith },
      inr (ground arith, refl),
    )
    | inr large ↦
        let (p, prime, le) = next_prime-some size h in
        let more : t.items < size = ground arith in
        let (fresh, nothing) = make-IsValid {V = V} p t.owner (omega arith) in
        let (r, freed, run, g) =
          rehash-Joined t.buckets (make p t.owner) [] fresh (omega (arith, valid.counted, le, more))
            (IsRobinHood-KeysDiffer t.size t.buckets valid.layout) (λ k v w _. nothing k w) in
        (
          r,
          freed,
          rw (set_size, large, prime) run,
          record {
            valid = g.valid;
            owner = g.owner;
            entries = λ k v. (
              g.from_list k v,
              λ x. elim (g.only k v x) [ inl old ↦ absurd (nothing k v old) | inr now ↦ now ],
            );
            few = omega (arith, g.few, valid.counted);
          },
          inl (more, omega (arith, g.size, le)),
        )
  ]
