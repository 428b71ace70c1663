-- ===== src/Hashtable/Get.antt =====
-- `Hashtable_get` finds exactly what a valid table holds.
use htop.Prelude.{
  ℕ, zero, suc, ◌+◌, ◌%◌, ◌≤◌, ◌<◌, ◌≡◌, refl, sym, ap, subst, ◌∙◌, ◌⊎◌, ◌↔◌, inl, inr, true, false,
  none, some, List, arith, ltb, ◌==◌, Bool-cases, ==_refl, Option-cases, length,
}
use native.Mathlib.Numerals.{add-one}
use htop.Hashtable.{Item, Table, bucket, next, get_loop, get}
use htop.Hashtable.Walk.{walk, walk-suc, next-lt, walk_reaches}
use htop.Hashtable.Invariant.{At, Has, Full, PathFull, IsRobinHood, IsValid, free_bucket}

module _ {ℓ} {V : Type ℓ} (size : ℕ) (bs : List (Item V)) where
  -- One round of the loop, by its four ways out.
  module _ (fuel index key probe : ℕ) where
    free_round : (bucket bs index).value ≡ none → get_loop (suc fuel) bs size index key probe ≡ none
    unfolding get_loop
    free_round e = rw (e, get_loop)

    hit_round :
        (v : V)
        → (bucket bs index).value ≡ some v
        → (bucket bs index).key == key ≡ true
        → get_loop (suc fuel) bs size index key probe ≡ some v
    unfolding get_loop
    hit_round v e k = rw (get_loop, e, k)

    stop_round :
        (v : V)
        → (bucket bs index).value ≡ some v
        → (bucket bs index).key == key ≡ false
        → ltb (bucket bs index).probe probe ≡ true
        → get_loop (suc fuel) bs size index key probe ≡ none
    unfolding get_loop
    stop_round v e k p = rw (get_loop, e, k, p)

    go_round :
        (v : V)
        → (bucket bs index).value ≡ some v
        → (bucket bs index).key == key ≡ false
        → ltb (bucket bs index).probe probe ≡ false
        → get_loop (suc fuel) bs size index key probe
          ≡ get_loop fuel bs size (next size index) key (probe + 1)
    unfolding get_loop
    go_round v e k p = rw (get_loop, e, k, p)

  -- What the loop returns stands in some bucket under the key.
  get_loop-sound :
      (fuel index key probe : ℕ) (v : V)
      → length bs ≡ size
      → index < size
      → get_loop fuel bs size index key probe ≡ some v
      → Has bs key v
  unfolding get_loop
  get_loop-sound zero index key probe v sized lt h = cc
  get_loop-sound (suc fuel) index key probe v sized lt h =
      let b = bucket bs index in
      elim (Option-cases b.value) [
        | inl free ↦ cc (free_round fuel index key probe free)
        | inr (w, e) ↦ elim (Bool-cases (b.key == key)) [
          | inl hit ↦ (
            index,
            record {
              inside = omega arith;
              key = ground arith;
              value = e ∙ sym (hit_round fuel index key probe w e hit) ∙ h;
            },
          )
          | inr miss ↦ elim (Bool-cases (ltb b.probe probe)) [
            | inl stop ↦ cc (stop_round fuel index key probe w e miss stop)
            | inr go ↦
                get_loop-sound fuel (next size index) key (probe + 1) v sized
                  (next-lt size index lt) (sym (go_round fuel index key probe w e miss go) ∙ h)
          ]
        ]
      ]

  -- A round on the way to the bucket `j` that holds the key: it ends there, or goes on.
  round :
      (fuel index key j probe : ℕ) (v : V)
      → IsRobinHood size bs
      → At bs key v j
      → index ≡ walk size (key % size) probe
      → index < size
      → probe ≤ (bucket bs j).probe
      → ((get_loop (suc fuel) bs size index key probe ≡ some v)
          ⊎ ((w : V) × ((bucket bs index).value ≡ some w)
              × (probe + 1 ≤ (bucket bs j).probe)
              × (get_loop (suc fuel) bs size index key probe
                  ≡ get_loop fuel bs size (next size index) key (probe + 1))))
  round fuel index key j probe v r a e lt le =
      let inside : j < size = omega (arith, a.inside, r.sized) in
      let home : walk size (key % size) (bucket bs j).probe ≡ j =
        subst (λ k. walk size (k % size) (bucket bs j).probe ≡ j) a.key
          (r.home j v inside a.value) in
      let hit_at : index ≡ j → get_loop (suc fuel) bs size index key probe ≡ some v = λ found.
        hit_round fuel index key probe v (ap (λ i. (bucket bs i).value) found ∙ a.value)
          (rw (ap (λ i. (bucket bs i).key) found ∙ a.key) (==_refl key)) in
      elim (Bool-cases (probe == (bucket bs j).probe)) [
        | inl last ↦
            let same : probe ≡ (bucket bs j).probe = ground arith in
            inl (hit_at (e ∙ ap (walk size (key % size)) same ∙ home))
        | inr before ↦
            let path : PathFull bs size (key % size) (bucket bs j).probe =
              subst (λ k. PathFull bs size (k % size) (bucket bs j).probe) a.key
                (r.path j v inside a.value) in
            let full : Full bs index probe =
              subst (λ i. Full bs i probe) (sym e) (path probe (ground arith)) in
            elim (Bool-cases ((bucket bs index).key == key)) [
              | inl match ↦
                  let keys : (bucket bs index).key ≡ (bucket bs j).key = ground (arith, a.key) in
                  inl (hit_at (r.unique index j full.holds v lt inside full.value a.value keys))
              | inr miss ↦
                  let far = full.far in
                  inr (
                    full.holds,
                    full.value,
                    ground arith,
                    go_round fuel index key probe full.holds full.value miss (ground arith),
                  )
            ]
      ]

  -- The loop gets to the bucket `j` that holds the key; a free bucket `d` steps on bounds it.
  get_loop_complete :
      (fuel index key j probe d : ℕ) (v : V)
      → IsRobinHood size bs
      → At bs key v j
      → index ≡ walk size (key % size) probe
      → index < size
      → probe ≤ (bucket bs j).probe
      → (bucket bs (walk size index d)).value ≡ none
      → d < fuel
      → get_loop fuel bs size index key probe ≡ some v
  unfolding walk
  get_loop_complete zero index key j probe d v r a e lt le free h = absurd (omega arith)
  get_loop_complete (suc fuel) index key j probe zero v r a e lt le free h =
      elim (round fuel index key j probe v r a e lt le) [
        | inl done ↦ done
        | inr (w, used, _, _) ↦ cc
      ]
  get_loop_complete (suc fuel) index key j probe (suc d) v r a e lt le free h =
      elim (round fuel index key j probe v r a e lt le) [
        | inl done ↦ done
        | inr (w, _, more, step) ↦
            step
            ∙ get_loop_complete fuel (next size index) key j (probe + 1) d v r a
                (ap (next size) e ∙ sym (walk-suc size (key % size) probe) ∙ rw add-one refl)
                (next-lt size index lt) more free (omega arith)
      ]

module _ {ℓ} {V : Type ℓ} {t : Table V} (valid : IsValid t) where
  -- `Hashtable_get` returns every value that the table holds under the key …
  pub get_complete : (key : ℕ) (v : V) → Has t.buckets key v → get t key ≡ some v
  unfolding get walk
  get_complete key v (j, a) =
      let r = valid.layout in
      let (e, inside, free) =
        free_bucket t.buckets (omega (arith, valid.counted, valid.room, r.sized)) in
      let start : key % t.size < t.size = omega (arith, r.pos) in
      let (d, few, reached) = walk_reaches t.size (key % t.size) e start (omega (arith, r.sized)) in
      get_loop_complete t.size t.buckets (t.size + 1) (key % t.size) key j 0 d v r a refl start
        (omega arith) (ap (λ i. (bucket t.buckets i).value) reached ∙ free) (omega arith)

  -- … and no value that the table does not hold under the key.
  pub get_sound : (key : ℕ) (v : V) → get t key ≡ some v → Has t.buckets key v
  unfolding get
  get_sound key v =
      get_loop-sound t.size t.buckets (t.size + 1) (key % t.size) key 0 v valid.layout.sized
        (omega (arith, valid.layout.pos))

  -- In a valid table `Hashtable_get` returns a value exactly if the table holds it under the key.
  pub get-Has : (key : ℕ) (v : V) → (get t key ≡ some v) ↔ Has t.buckets key v
  get-Has key v = (get_sound key v, get_complete key v)
